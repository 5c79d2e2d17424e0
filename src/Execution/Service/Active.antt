-- ===== src/Execution/Service/Active.antt =====
-- The active execution of a symbol (`active_execution_for` of src/execution/service.py).
use interview_assignment.Base.{
  ◌↔◌, ◌==◌, ◌≡◌, refl, sym, ap, subst, ◌∙◌, ◌⊎◌, inl, inr, true, false, none, some, List, [], ◌∷◌,
  arith, Bool-cases, Option-cases, is_some, Text, text_eq, text_eq_iff, text_eq_refl,
}
use interview_assignment.Base.Dict.{lookup, contains}
use interview_assignment.Execution.Models.{Environment, is_terminal}
use interview_assignment.Engine.Record.{ExecutionRecord}
use interview_assignment.Execution.Service.{
  Executions, get_execution, execution_ids, add_active, collect_active, active_executions,
  environment_code, trades_on, first_on, active_execution_for,
}

-- An execution that is in the table under a key, has not ended, and trades on the symbol.
pub record IsActiveOn (environment : Environment) (symbol : Text) (records : Executions) (k : Text)
    (r : ExecutionRecord) : Type 0 where
  pub kept : lookup k records ≡ some r
  pub live : is_terminal r.status ≡ false
  pub same_environment : r.request.environment ≡ environment
  pub same_symbol : r.request.symbol ≡ symbol

same_environments : (x y : Environment) → (environment_code x == environment_code y) ≡ true → x ≡ y
same_environments x y e = ground arith

-- The test of the code holds exactly where environment and symbol are the ones asked for.
pub trades_on_iff :
    (environment : Environment) (symbol : Text) (r : ExecutionRecord)
    → (trades_on environment symbol r ≡ true)
      ↔ ((r.request.environment ≡ environment) × (r.request.symbol ≡ symbol))
unfolding trades_on
trades_on_iff environment symbol r = (
  λ h. (
    same_environments r.request.environment environment (ground arith),
    (text_eq_iff r.request.symbol symbol).0 (ground arith),
  ),
  λ h. grind (arith, h.0, h.1, text_eq_refl symbol),
)

pub active_on :
    (environment : Environment) (symbol : Text) (records : Executions) (k : Text)
    (r : ExecutionRecord)
    → lookup k records ≡ some r
    → is_terminal r.status ≡ false
    → trades_on environment symbol r ≡ true
    → IsActiveOn environment symbol records k r
active_on environment symbol records k r e live on =
    let (place, name) = (trades_on_iff environment symbol r).0 on in
    record { kept = e; live = live; same_environment = place; same_symbol = name }

pub IsActiveOn-trades :
    {environment : Environment} {symbol : Text} {records : Executions} {k : Text}
    {r : ExecutionRecord}
    → IsActiveOn environment symbol records k r
    → trades_on environment symbol r ≡ true
IsActiveOn-trades {environment} {symbol} {r = r} a =
    (trades_on_iff environment symbol r).1 (a.same_environment, a.same_symbol)

IsKnown-execution_ids :
    (k : Text) (records : Executions)
    → contains k (execution_ids records) ≡ is_some (lookup k records)
unfolding contains execution_ids lookup
IsKnown-execution_ids k [] = refl
IsKnown-execution_ids k ((j, r) ∷ records) = ground (arith, IsKnown-execution_ids k records)

ended :
    {r : ExecutionRecord} (s : ExecutionRecord)
    → is_terminal r.status ≡ true
    → s ≡ r
    → is_terminal s.status ≡ false
    → ⊥
ended s over e live = grind (arith, over, e, live)

module _ (environment : Environment) (symbol : Text) (records : Executions) where
  -- What the two loops find among some of the keys.
  data Finds (ks : List Text) (active : List ExecutionRecord) : Type 0 where
    found :
        (k : Text) (r : ExecutionRecord)
        → first_on environment symbol active ≡ some r
        → IsActiveOn environment symbol records k r
        → Finds ks active
    missing :
        first_on environment symbol active ≡ none
        → ((k : Text) (r : ExecutionRecord)
            → contains k ks ≡ true
            → ¬ IsActiveOn environment symbol records k r)
        → Finds ks active

  later_key :
      (k j : Text) (ks : List Text)
      → text_eq j k ≡ false
      → contains j (k ∷ ks) ≡ true
      → contains j ks ≡ true
  unfolding contains
  later_key k j ks new h = ground arith

  -- A key without an execution of interest changes nothing.
  skips :
      (k : Text) (ks : List Text) (active active' : List ExecutionRecord)
      → first_on environment symbol active' ≡ first_on environment symbol active
      → ((r : ExecutionRecord) → ¬ IsActiveOn environment symbol records k r)
      → Finds ks active
      → Finds (k ∷ ks) active'
  skips k ks active active' same never (Finds.found j r e a) = Finds.found j r (same ∙ e) a
  skips k ks active active' same never (Finds.missing e none_later) =
      Finds.missing (same ∙ e) (λ j r h a. elim (Bool-cases (text_eq j k)) [
        | inl here ↦
            never r
              (subst (λ i. IsActiveOn environment symbol records i r) ((text_eq_iff j k).0 here) a)
        | inr later ↦ none_later j r (later_key k j ks later h) a
      ])

  elsewhere :
      {r : ExecutionRecord} (s : ExecutionRecord)
      → trades_on environment symbol r ≡ false
      → s ≡ r
      → trades_on environment symbol s ≡ true
      → ⊥
  elsewhere s off e on = grind (arith, off, e, on)

  same_record :
      (k : Text) (r s : ExecutionRecord)
      → lookup k records ≡ some r
      → IsActiveOn environment symbol records k s
      → s ≡ r
  same_record k r s e a = grind (arith, e, a.kept)

  Finds-key :
      (k : Text) (ks : List Text) (r : ExecutionRecord) (active : List ExecutionRecord)
      → lookup k records ≡ some r
      → Finds ks active
      → Finds (k ∷ ks) (add_active r active)
  unfolding add_active first_on
  Finds-key k ks r active e h = elim (Bool-cases (is_terminal r.status)) [
    | inl over ↦
        rw over
          (skips k ks active active refl (λ s a. ended s over (same_record k r s e a) a.live) h)
    | inr live ↦ elim (Bool-cases (trades_on environment symbol r)) [
      | inl on ↦
          rw live
            (Finds.found k r (rw on refl) (active_on environment symbol records k r e live on))
      | inr off ↦ rw live (
          skips k ks active (r ∷ active) (rw off refl)
            (λ s a. elsewhere s off (same_record k r s e a) (IsActiveOn-trades a)) h)
    ]
  ]

  collect_active-key :
      (k : Text) (ks : List Text) (r : ExecutionRecord) (active : List ExecutionRecord)
      → lookup k records ≡ some r
      → collect_active records ks ≡ some active
      → collect_active records (k ∷ ks) ≡ some (add_active r active)
  unfolding collect_active get_execution
  collect_active-key k ks r active here e = ground (arith, here, e)

  unknown :
      (k : Text) (ks : List Text)
      → lookup k records ≡ none
      → (contains k (k ∷ ks) ≡ true → is_some (lookup k records) ≡ true)
      → ⊥
  unfolding contains
  unknown k ks lost known = ground (arith, lost, text_eq_refl k, known)

  Finds-all :
      (ks : List Text)
      → ((k : Text) → contains k ks ≡ true → is_some (lookup k records) ≡ true)
      → (active : List ExecutionRecord) × (collect_active records ks ≡ some active)
        × Finds ks active
  unfolding collect_active get_execution first_on contains
  Finds-all [] known = ([], refl, Finds.missing refl (λ k r h _. absurd (ground arith)))
  Finds-all (k ∷ ks) known =
      let (active, e, h) = Finds-all ks (λ j c. known j (ground (arith, c))) in
      elim (Option-cases (lookup k records)) [
        | inl lost ↦ absurd (unknown k ks lost (known k))
        | inr (r, here) ↦ (
          add_active r active,
          collect_active-key k ks r active here e,
          Finds-key k ks r active here h,
        )
      ]

  chosen :
      (active : List ExecutionRecord)
      → active_executions records ≡ some active
      → Finds (execution_ids records) active
      → ((k : Text) × (r : ExecutionRecord) × IsActiveOn environment symbol records k r
          × (active_execution_for environment symbol records ≡ some (some r)))
        ⊎ ((active_execution_for environment symbol records ≡ some none)
            × ¬ ((k : Text) × (r : ExecutionRecord) × IsActiveOn environment symbol records k r))
  unfolding active_execution_for
  chosen active e (Finds.found k r first a) = inl (k, r, a, rw (e, first) refl)
  chosen active e (Finds.missing none_left others) = inr (
    rw (e, none_left) refl,
    λ (k, r, a). others k r (IsKnown-execution_ids k records ∙ ap is_some a.kept) a,
  )

-- The service never raises when it looks for the active execution of a symbol: it answers with an
-- execution that is in its table, has not ended and trades on that symbol in that environment, or
-- it answers none, and then there is no such execution in the table.
pub active_execution_for_exact :
    (environment : Environment) (symbol : Text) (records : Executions)
    → ((k : Text) × (r : ExecutionRecord) × IsActiveOn environment symbol records k r
        × (active_execution_for environment symbol records ≡ some (some r)))
      ⊎ ((active_execution_for environment symbol records ≡ some none)
          × ¬ ((k : Text) × (r : ExecutionRecord) × IsActiveOn environment symbol records k r))
unfolding active_executions
active_execution_for_exact environment symbol records =
    let (active, e, h) =
      Finds-all environment symbol records (execution_ids records)
        (λ k c. sym (IsKnown-execution_ids k records) ∙ c) in
    chosen environment symbol records active e h
