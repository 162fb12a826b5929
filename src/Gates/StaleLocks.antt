-- ===== src/Gates/StaleLocks.antt =====
-- What `operational_readiness_gate` of src/transpose/pipeline/gates.py does to the locks of
-- src/transpose/services/cache.py.
use transpose.Prelude.{
  ℕ, ◌≤◌, ◌≡◌, ◌⊎◌, inl, inr, refl, String, true, false, List, [], ◌∷◌, ◌++◌, All, Bool-cases,
  Option-cases, arith, member, select, ltb,
}
use transpose.Text.{is_empty}
use transpose.Exec.{Outcome, ok, raised}
use transpose.State.{Tables, PipelineState, acquire_lock, reclaims}
use transpose.Gates.Readiness.{
  Probes, is_stale, delete_stale, count_stale, check_locks, static_checks,
  operational_readiness_gate,
}
use transpose.Gates.Ready.{Outcome-cases, check_locks_iff, select-eq-nil_iff}

-- Either nothing is deleted or exactly the stale rows are.
found_stale-cases :
    (deleted : Outcome String (Unit {0})) (now : ℕ) (db : Tables) (stale : List String)
    → ((count_stale deleted now db stale).1 ≡ db)
      ⊎ ((count_stale deleted now db stale).1 ≡ delete_stale now db)
found_stale-cases deleted now db [] = inl refl
found_stale-cases (ok _) now db (b ∷ bs) = inr refl
found_stale-cases (raised e) now db (b ∷ bs) = inl refl

check_locks-cases :
    (skip : List String) (p : Probes) (now : ℕ) (books : List String) (db : Tables)
    → ((check_locks skip p now books db).1 ≡ db)
      ⊎ ((check_locks skip p now books db).1 ≡ delete_stale now db)
unfolding check_locks
check_locks-cases skip p now books db = elim (Bool-cases (member "no_stale_locks" skip)) [
  | inl e ↦ rw e (inl refl)
  | inr e ↦ rw e (elim (Outcome-cases p.select_locks) [
    | inl (u, k) ↦ rw k (found_stale-cases p.delete_locks now db _)
    | inr (x, k) ↦ rw k (inl refl)
  ])
]

-- A stale row does not stand in the way of an acquisition, so it is no matter whether it is deleted.
delete_stale-acquire_lock :
    (now later : ℕ) (fresh : String) (s : PipelineState) (db : Tables) (b : String) (ttl : ℕ)
    → now ≤ later
    → (acquire_lock later fresh s (delete_stale now db) b ttl).2
      ≡ (acquire_lock later fresh s db b ttl).2
unfolding acquire_lock reclaims delete_stale
delete_stale-acquire_lock now later fresh s db b ttl h = elim (Option-cases (db.pipeline_locks b)) [
  | inl e ↦ rw e refl
  | inr (r, e) ↦ rw e (elim (Bool-cases (ltb r.expires_at now)) [
    | inl k ↦ rw k (ground (arith, k))
    | inr k ↦ rw k (ground arith)
  ])
]

keeps_live :
    (now : ℕ) (db : Tables) (b : String)
    → is_stale now (db.pipeline_locks b) ≡ false
    → (delete_stale now db).pipeline_locks b ≡ db.pipeline_locks b
unfolding delete_stale
keeps_live now db b k = rw k refl

-- If a lock is not stale at the time of the gate, the gate leaves its row as it is. Whatever it deletes, an acquisition
-- of any book that is no earlier is granted after the gate exactly if it would have been granted without it.
pub operational_readiness_gate-acquire_lock :
    (skip : List String) (p : Probes) (now : ℕ) (books : List String) (db : Tables) (later : ℕ)
    (fresh : String) (s : PipelineState) (b : String) (ttl : ℕ)
    → now ≤ later
    → ((is_stale now (db.pipeline_locks b) ≡ true)
        ⊎ ((operational_readiness_gate skip p now books db).1.pipeline_locks b
            ≡ db.pipeline_locks b))
      × ((acquire_lock later fresh s (operational_readiness_gate skip p now books db).1 b ttl).2
          ≡ (acquire_lock later fresh s db b ttl).2)
unfolding operational_readiness_gate
operational_readiness_gate-acquire_lock skip p now books db later fresh s b ttl h =
    elim (check_locks-cases skip p now books db) [
      | inl e ↦ rw e (inr refl, refl)
      | inr e ↦ rw e (
        elim (Bool-cases (is_stale now (db.pipeline_locks b))) [
          | inl k ↦ inl k
          | inr k ↦ inr (keeps_live now db b k)
        ],
        delete_stale-acquire_lock now later fresh s db b ttl h,
      )
    ]

none_stale :
    (now : ℕ) (db : Tables) (books : List String)
    → All (λ b. is_stale now ((delete_stale now db).pipeline_locks b) ≡ false) books
unfolding delete_stale
none_stale now db [] = tt
none_stale now db (b ∷ bs) = (
  elim (Bool-cases (is_stale now (db.pipeline_locks b))) [ inl k ↦ rw k refl | inr k ↦ rw k k ],
  none_stale now db bs,
)

nothing_stale :
    (deleted : Outcome String (Unit {0})) (now : ℕ) (books : List String) (db : Tables)
    (stale : List String)
    → select (λ b. is_stale now (db.pipeline_locks b)) books ≡ stale
    → deleted ≡ ok tt
    → All (λ b. is_stale now ((count_stale deleted now db stale).1.pipeline_locks b) ≡ false) books
nothing_stale deleted now books db [] e h =
    (select-eq-nil_iff (λ b. is_stale now (db.pipeline_locks b)) books).0 e
nothing_stale (ok _) now books db (b ∷ bs) e h = none_stale now db books
nothing_stale (raised x) now books db (b ∷ bs) e h = cc

locks_again :
    (skip : List String) (p : Probes) (now : ℕ) (books : List String) (db : Tables)
    → p.delete_locks ≡ ok tt
    → (check_locks skip p now books (check_locks skip p now books db).1).0.1 ≡ []
unfolding check_locks
locks_again skip p now books db h =
    let (_, passes) = check_locks_iff skip p now books (check_locks skip p now books db).1 in
    elim (Bool-cases (member "no_stale_locks" skip)) [
      | inl e ↦ passes (inl e)
      | inr e ↦ elim (Outcome-cases p.select_locks) [
        | inr (x, k) ↦ passes (inr (inl (x, k)))
        | inl (u, k) ↦
            passes (inr (inr (rw (e, k) (nothing_stale p.delete_locks now books db _ refl h))))
      ]
    ]

is_empty-nils :
    {A : Type 0} (xs ys : List A) → xs ≡ [] → ys ≡ [] → is_empty (xs ++ (ys ++ [])) ≡ true
is_empty-nils xs ys e f = rw (e, f) refl

-- If no other check has a problem and the stale rows can be deleted, the gate passes when it is run a second time at
-- the same time, whatever it found the first time.
pub operational_readiness_gate_again :
    (skip : List String) (p : Probes) (now : ℕ) (books : List String) (db : Tables)
    → (static_checks skip p).1 ≡ []
    → p.delete_locks ≡ ok tt
    → (operational_readiness_gate skip p now books
        (operational_readiness_gate skip p now books db).1).0.passed
      ≡ true
unfolding operational_readiness_gate
operational_readiness_gate_again skip p now books db h k =
    is_empty-nils _ _ h (locks_again skip p now books db k)
