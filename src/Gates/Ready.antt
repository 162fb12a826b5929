-- ===== src/Gates/Ready.antt =====
-- When `operational_readiness_gate` of src/transpose/pipeline/gates.py passes, and what it does to the locks.
use transpose.Prelude.{
  All-weaken, ℕ, ◌≡◌, ◌↔◌, ◌⊎◌, inl, inr, refl, ap, ◌∙◌, String, Bool, true, false, not, Option,
  none, some, List, [], ◌∷◌, ◌++◌, All, Bool-cases, append-eq-nil_iff, arith, member, select,
  str_eq,
}
use transpose.Text.{is_empty_iff}
use transpose.Exec.{Outcome, ok, raised}
use transpose.State.{Tables}
use transpose.Gates.Readiness.{
  Problem, missing_tables, missing_env, Probes, required_tables, required_vars, some_missing,
  database_problem, blob_problem, openai_problem, env_problem, font_problem, font_found, entries_of,
  unless_skipped, is_stale, count_stale, check_locks, static_checks, operational_readiness_gate,
}

-- What each check asks for, if it is not skipped.
pub record IsReady (skip : List String) (p : Probes) (now : ℕ) (books : List String) (db : Tables)
    : Type 0 where
  pub database :
      (member "database_reachable" skip ≡ true)
      ⊎ ((p.fetch_one ≡ ok true)
          × ((found : List String) × (p.fetch_tables ≡ ok found)
              × All (λ t. member t found ≡ true) required_tables))
  pub blob : (member "blob_storage_accessible" skip ≡ true) ⊎ (p.list_containers ≡ ok tt)
  pub openai :
      (member "openai_endpoint" skip ≡ true)
      ⊎ ((str_eq p.openai_endpoint "" ≡ false) × (p.health_check ≡ ok tt))
  pub env :
      (member "env_vars_present" skip ≡ true)
      ⊎ All (λ v. str_eq (p.environ v) "" ≡ false) required_vars
  pub fonts : (member "fonts_available" skip ≡ true) ⊎ (font_found p ≡ true)
  pub locks :
      (member "no_stale_locks" skip ≡ true)
      ⊎ (((e : String) × (p.select_locks ≡ raised e))
          ⊎ All (λ b. is_stale now (db.pipeline_locks b) ≡ false) books)

pub select-eq-nil_iff :
    {A : Type 0} (f : A → Bool) (xs : List A) → (select f xs ≡ []) ↔ All (λ x. f x ≡ false) xs
unfolding select
select-eq-nil_iff f [] = (λ _. tt, λ _. refl)
select-eq-nil_iff f (x ∷ xs) = elim (Bool-cases (f x)) [
  | inl e ↦ rw e (λ h. cc, λ h. cc (h.0))
  | inr e ↦ let (a, b) = select-eq-nil_iff f xs in rw e (λ h. (refl, a h), λ h. b h.1)
]

entries-nil_iff : (name : String) (o : Option Problem) → ((entries_of name o).1 ≡ []) ↔ (o ≡ none)
entries-nil_iff name none = (λ _. refl, λ _. refl)
entries-nil_iff name (some x) = (λ h. cc, λ h. cc)

skipped_iff :
    {P : Type 0} (skip : List String) (name : String) (o : Option Problem)
    → (o ≡ none) ↔ P
    → ((entries_of name (unless_skipped skip name o)).1 ≡ []) ↔ ((member name skip ≡ true) ⊎ P)
skipped_iff skip name o (f, f') = elim (Bool-cases (member name skip)) [
  | inl e ↦ rw e (λ _. inl refl, λ _. refl)
  | inr e ↦
      let (a, b) = entries-nil_iff name o in
      rw e (λ h. inr (f (a h)), λ h. elim h [ inl bad ↦ cc | inr q ↦ b (f' q) ])
]

missing_iff :
    {P : Type 0} (problem : List String → Problem) (ms : List String)
    → (ms ≡ []) ↔ P
    → (some_missing problem ms ≡ none) ↔ P
missing_iff problem [] (f, f') = (λ _. f refl, λ _. refl)
missing_iff problem (m ∷ ms) (f, f') = (λ h. cc, λ h. cc (f' h))

found-All :
    (found other : List String)
    → ◌≡◌ {A = Outcome String (List String)} (ok found) (ok other)
    → All (λ t. member t other ≡ true) required_tables
    → All (λ t. not (member t found) ≡ false) required_tables
found-All found other e h =
    All-weaken {P = λ t. member t other ≡ true} required_tables
      (λ t k. let same : found ≡ other = cc in ap (λ l. not (member t l)) same ∙ ap not k) h

database_iff :
    (one : Outcome String Bool) (tables : Outcome String (List String))
    → (database_problem one tables ≡ none) ↔ (
        (one ≡ ok true)
        × ((found : List String) × (tables ≡ ok found)
            × All (λ t. member t found ≡ true) required_tables))
unfolding database_problem
database_iff (raised e) tables = (λ h. cc, λ h. cc (h.0))
database_iff (ok false) tables = (λ h. cc, λ h. cc (h.0))
database_iff (ok true) (raised e) = (λ h. cc, λ h. cc (h.1.1))
database_iff (ok true) (ok found) =
    let (a, b) =
      missing_iff missing_tables _
        (select-eq-nil_iff (λ t. not (member t found)) required_tables) in
    (
      λ h. (
        refl,
        (
          found,
          refl,
          All-weaken {P = λ t. not (member t found) ≡ false} {Q = λ t. member t found ≡ true}
              required_tables (λ t k. ground (arith, k)) (a h),
        ),
      ),
      λ h. b (found-All found h.1.0 h.1.1 h.1.2),
    )

blob_iff : (o : Outcome String (Unit {0})) → (blob_problem o ≡ none) ↔ (o ≡ ok tt)
unfolding blob_problem
blob_iff (ok _) = (λ _. refl, λ _. refl)
blob_iff (raised e) = (λ h. cc, λ h. cc)

openai_iff :
    (endpoint : String) (o : Outcome String (Unit {0}))
    → (openai_problem endpoint o ≡ none) ↔ ((str_eq endpoint "" ≡ false) × (o ≡ ok tt))
unfolding openai_problem
openai_iff endpoint (ok _) = elim (Bool-cases (str_eq endpoint "")) [
  | inl e ↦ rw e (λ h. cc, λ h. cc (h.0))
  | inr e ↦ rw e (λ _. (refl, refl), λ _. refl)
]
openai_iff endpoint (raised x) = elim (Bool-cases (str_eq endpoint "")) [
  | inl e ↦ rw e (λ h. cc, λ h. cc (h.0))
  | inr e ↦ rw e (λ h. cc, λ h. cc (h.1))
]

env_iff :
    (environ : String → String)
    → (env_problem environ ≡ none) ↔ All (λ v. str_eq (environ v) "" ≡ false) required_vars
unfolding env_problem
env_iff environ =
    missing_iff missing_env _ (select-eq-nil_iff (λ v. str_eq (environ v) "") required_vars)

font_iff : (p : Probes) → (font_problem p ≡ none) ↔ (font_found p ≡ true)
unfolding font_problem
font_iff p = elim (Bool-cases (font_found p)) [
  | inl e ↦ rw e (λ _. refl, λ _. refl)
  | inr e ↦ rw e (λ h. cc, λ h. cc)
]

count_iff :
    (deleted : Outcome String (Unit {0})) (now : ℕ) (db : Tables) (stale : List String)
    → ((count_stale deleted now db stale).0.1 ≡ []) ↔ (stale ≡ [])
count_iff deleted now db [] = (λ _. refl, λ _. refl)
count_iff (ok _) now db (b ∷ bs) = (λ h. cc, λ h. cc)
count_iff (raised e) now db (b ∷ bs) = (λ h. cc, λ h. cc)

pub Outcome-cases :
    {A : Type 0} (o : Outcome String A) → ((a : A) × (o ≡ ok a)) ⊎ ((e : String) × (o ≡ raised e))
Outcome-cases (ok a) = inl (a, refl)
Outcome-cases (raised e) = inr (e, refl)

pub check_locks_iff :
    (skip : List String) (p : Probes) (now : ℕ) (books : List String) (db : Tables)
    → ((check_locks skip p now books db).0.1 ≡ []) ↔ (
        (member "no_stale_locks" skip ≡ true)
        ⊎ (((e : String) × (p.select_locks ≡ raised e))
            ⊎ All (λ b. is_stale now (db.pipeline_locks b) ≡ false) books))
unfolding check_locks
check_locks_iff skip p now books db = elim (Bool-cases (member "no_stale_locks" skip)) [
  | inl e ↦ rw e (λ _. inl refl, λ _. refl)
  | inr e ↦ rw e (elim (Outcome-cases p.select_locks) [
    | inl (u, k) ↦
        let (a, b) =
          count_iff p.delete_locks now db
            (select (λ b. is_stale now (db.pipeline_locks b)) books) in
        let (c, d) = select-eq-nil_iff (λ b. is_stale now (db.pipeline_locks b)) books in
        rw k (
          λ h. inr (inr (c (a h))),
          λ h. elim h [ inl bad ↦ cc | inr (inl bad) ↦ cc (bad.1) | inr (inr q) ↦ b (d q) ],
        )
    | inr (x, k) ↦ rw k (λ _. inr (inl (x, refl)), λ _. refl)
  ])
]

six_iff :
    {A : Type 0} (a b c d e f : List A)
    → ((a ++ (b ++ (c ++ (d ++ e)))) ++ (f ++ []) ≡ [])
      ↔ ((a ≡ []) × (b ≡ []) × (c ≡ []) × (d ≡ []) × (e ≡ []) × (f ≡ []))
six_iff a b c d e f = ground (
  arith,
  append-eq-nil_iff (a ++ (b ++ (c ++ (d ++ e)))) (f ++ []),
  append-eq-nil_iff a (b ++ (c ++ (d ++ e))),
  append-eq-nil_iff b (c ++ (d ++ e)),
  append-eq-nil_iff c (d ++ e),
  append-eq-nil_iff d e,
  append-eq-nil_iff f [],
)

-- The readiness gate passes exactly when each check that is not skipped finds what it asks for: both database queries
-- answer and the required tables are there, the containers can be listed, the model's endpoint is set and a client for it
-- can be constructed, which contacts nothing, the required variables are set, a font is found, and the lock table cannot
-- be read or has no stale row.
pub operational_readiness_gate_iff :
    (skip : List String) (p : Probes) (now : ℕ) (books : List String) (db : Tables)
    → ((operational_readiness_gate skip p now books db).0.passed ≡ true)
      ↔ IsReady skip p now books db
unfolding operational_readiness_gate static_checks
operational_readiness_gate_iff skip p now books db =
    let (empty, empty') =
      is_empty_iff ((operational_readiness_gate skip p now books db).0.failures) in
    let (split, split') =
      six_iff
        (entries_of "database_reachable" (
          unless_skipped skip "database_reachable" (database_problem p.fetch_one p.fetch_tables))).1
        (entries_of "blob_storage_accessible"
          (unless_skipped skip "blob_storage_accessible" (blob_problem p.list_containers))).1
        (entries_of "openai_endpoint" (
          unless_skipped skip "openai_endpoint"
            (openai_problem p.openai_endpoint p.health_check))).1
        (entries_of "env_vars_present"
          (unless_skipped skip "env_vars_present" (env_problem p.environ))).1
        (entries_of "fonts_available" (unless_skipped skip "fonts_available" (font_problem p))).1
        (check_locks skip p now books db).0.1 in
    let (d, d') =
      skipped_iff skip "database_reachable" _ (database_iff p.fetch_one p.fetch_tables) in
    let (b, b') = skipped_iff skip "blob_storage_accessible" _ (blob_iff p.list_containers) in
    let (o, o') =
      skipped_iff skip "openai_endpoint" _ (openai_iff p.openai_endpoint p.health_check) in
    let (v, v') = skipped_iff skip "env_vars_present" _ (env_iff p.environ) in
    let (f, f') = skipped_iff skip "fonts_available" _ (font_iff p) in
    let (l, l') = check_locks_iff skip p now books db in
    (
      λ h.
          let s = split (empty h) in
          record {
            database = d s.0;
            blob = b s.1;
            openai = o s.2;
            env = v s.3;
            fonts = f s.4;
            locks = l s.5;
          },
      λ r.
          empty' (split' (d' r.database, b' r.blob, o' r.openai, v' r.env, f' r.fonts, l' r.locks)),
    )
