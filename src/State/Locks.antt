-- ===== src/State/Locks.antt =====
-- What the locks of src/transpose/services/cache.py guarantee to the runs that compete for a book.
use transpose.Prelude.{
  ℕ, suc, ◌+◌, ◌≤◌, String, ◌≡◌, ◌≢◌, refl, Bool, true, false, Option, none, some, List, [], ◌∷◌,
  ap, inl, inr, Option-cases, arith, eq_iff, eq_refl, str_eq, if◌then◌else◌,
}
use transpose.State.{
  LockRow, Tables, PipelineState, acquire_lock, release_lock, refresh_lock, holder_or,
}

-- A call that some process makes, with the clock and the fresh id that it reads.
pub data LockCall : Type 0 where
  acquire : ℕ → String → PipelineState → String → ℕ → LockCall
  refresh : ℕ → PipelineState → String → ℕ → LockCall

pub call : Tables → LockCall → Tables × Bool
call db (acquire now fresh p book_id ttl) =
    let (_, db', done) = acquire_lock now fresh p db book_id ttl in (db', done)
call db (refresh now p book_id ttl) = refresh_lock now p db book_id ttl

abbrev book_of : LockCall → String
book_of (acquire _ _ _ b _) = b
book_of (refresh _ _ b _) = b

abbrev pub add_grant : Bool → ℕ → ℕ
add_grant true n = suc n
add_grant false n = n

-- The tables after a sequence of calls, and how many calls for `book_id` were granted.
pub calls : String → Tables → List LockCall → Tables × ℕ
calls book_id db [] = (db, 0)
calls book_id db (c ∷ cs) =
    let (db', done) = call db c in
    let (db'', n) = calls book_id db' cs in
    (db'', add_grant (if str_eq (book_of c) book_id then done else false) n)

-- The call is no renewal by the holder `h`, and an acquisition comes no later than `deadline`.
abbrev pub IsRival : String → ℕ → LockCall → Type 0
IsRival h deadline (acquire now fresh p b ttl) = now ≤ deadline
IsRival h deadline (refresh now p b ttl) = p.holder_id ≢ some h

abbrev pub AllRivals : String → ℕ → List LockCall → Type 0
AllRivals h deadline [] = Unit {0}
AllRivals h deadline (c ∷ cs) = IsRival h deadline c × AllRivals h deadline cs

refresh-rival :
    (b : String) (r : LockRow) (db : Tables) (now : ℕ) (o : Option String) (b' : String) (ttl : ℕ)
    → db.pipeline_locks b ≡ some r
    → o ≢ some r.holder_id
    → ((refresh_lock now (record { holder_id = o }) db b' ttl).0.pipeline_locks b ≡ some r)
      × ((if str_eq b' b then (refresh_lock now (record { holder_id = o }) db b' ttl).1 else false)
          ≡ false)
unfolding refresh_lock
refresh-rival b r db now none b' ttl e v = (e, ground arith)
refresh-rival b r db now (some h) b' ttl e v = elim (Option-cases (db.pipeline_locks b')) [
  | inl gone ↦ rw gone (ground (arith, eq_iff b' b))
  | inr (r', found) ↦
      rw found
        (ground (arith, eq_iff b' b, eq_iff r'.holder_id h, ap some {x = r'.holder_id} {y = h}))
]

call-rival :
    (b : String) (r : LockRow) (db : Tables) (c : LockCall)
    → db.pipeline_locks b ≡ some r
    → IsRival r.holder_id r.expires_at c
    → ((call db c).0.pipeline_locks b ≡ some r)
      × ((if str_eq (book_of c) b then (call db c).1 else false) ≡ false)
unfolding call acquire_lock refresh_lock
call-rival b r db (acquire now fresh p b' ttl) e v = ground (arith, eq_iff b' b)
call-rival b r db (refresh now p b' ttl) e v = refresh-rival b r db now p.holder_id b' ttl e v

calls-rivals :
    (b : String) (r : LockRow) (db : Tables) (cs : List LockCall)
    → db.pipeline_locks b ≡ some r
    → AllRivals r.holder_id r.expires_at cs
    → ((calls b db cs).0.pipeline_locks b ≡ some r) × ((calls b db cs).1 ≡ 0)
unfolding calls
calls-rivals b r db [] e v = (e, refl)
calls-rivals b r db (c ∷ cs) e v =
    let (kept, refused) = call-rival b r db c e v.0 in
    let (held, none_granted) = calls-rivals b r (call db c).0 cs kept v.1 in
    (held, rw (refused, none_granted) refl)

-- A granted acquisition keeps every rival out that acquires or refreshes: however often rivals do either, for any book,
-- before the row expires, the row stays as it was written and no call of theirs for the book is granted. Nobody releases
-- the lock meanwhile.
pub acquire_excludes :
    (now : ℕ) (fresh : String) (p : PipelineState) (db : Tables) (b : String) (ttl : ℕ)
    (cs : List LockCall)
    → (acquire_lock now fresh p db b ttl).2 ≡ true
    → AllRivals (holder_or p fresh) (now + ttl) cs
    → let db' = (acquire_lock now fresh p db b ttl).1 in
      ((calls b db' cs).0.pipeline_locks b
        ≡ some (record { locked_at = now; expires_at = now + ttl; holder_id = holder_or p fresh }))
      × ((calls b db' cs).1 ≡ 0)
unfolding acquire_lock
acquire_excludes now fresh p db b ttl cs done rivals =
    calls-rivals b _ _ cs (ground (arith, eq_refl b)) rivals

-- A renewal by the holder, expired or not, is granted and keeps the rivals out for the new time.
pub refresh_excludes :
    (now : ℕ) (h : String) (db : Tables) (b : String) (ttl : ℕ) (r : LockRow) (cs : List LockCall)
    → h ≢ ""
    → db.pipeline_locks b ≡ some r
    → r.holder_id ≡ h
    → AllRivals h (now + ttl) cs
    → let (db', done) = refresh_lock now (record { holder_id = some h }) db b ttl in
      (done ≡ true)
      × ((calls b db' cs).0.pipeline_locks b
          ≡ some (record { locked_at = now; expires_at = now + ttl; holder_id = h }))
      × ((calls b db' cs).1 ≡ 0)
unfolding refresh_lock
refresh_excludes now h db b ttl r cs named held mine rivals =
    let kept : (refresh_lock now (record { holder_id = some h }) db b ttl).0.pipeline_locks b
        ≡ some (record { locked_at = now; expires_at = now + ttl; holder_id = h }) =
      rw held (ground (arith, eq_refl b, eq_iff h "", eq_iff r.holder_id h)) in
    let granted : (refresh_lock now (record { holder_id = some h }) db b ttl).1 ≡ true =
      rw held (ground (arith, eq_refl b, eq_iff h "", eq_iff r.holder_id h)) in
    let (row, refused) = calls-rivals b _ _ cs kept rivals in (granted, row, refused)

-- `release_lock` does not look at the holder: whoever is refused the lock gets it by a release, whatever
-- live row of another holder stands there.
pub release_steals :
    (now : ℕ) (fresh : String) (p : PipelineState) (db : Tables) (b : String) (ttl : ℕ)
    → (acquire_lock now fresh p db b ttl).2 ≡ false
    → let (p', db', done) = acquire_lock now fresh p (release_lock db b) b ttl in
      (done ≡ true)
      × (db'.pipeline_locks b
          ≡ some
              (record { locked_at = now; expires_at = now + ttl; holder_id = holder_or p fresh }))
unfolding acquire_lock release_lock
release_steals now fresh p db b ttl refused = ground (arith, eq_refl b)
