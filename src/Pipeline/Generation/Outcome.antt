-- ===== src/Pipeline/Generation/Outcome.antt =====
-- How a run of generation_loop.py ends.
use kosmo.Base.{
  ℕ, ◌+◌, ◌-◌, ◌≤◌, Bool, true, false, Option, none, some, ◌≡◌, refl, arith, length, if◌then◌else◌,
  inl, inr, is_some, subst, ◌⊎◌, ◌&&◌, ap, sym, ◌∙◌,
}
use kosmo.Base.Text.{Text}
use kosmo.Pipeline.Generation.{
  ValidationResult, Mode, Services, Progress, iterate, start, run, enriched_prompt, metadata_of,
  Session, session_of,
}
use kosmo.Pipeline.Generation.Loop.{
  IsValidated, Succeeds, iterate-IsBounded, iterate-IsValidated, iterate-Succeeds,
}

module _ {Output Result : Type 0} (mode : Mode Output Result) (services : Services Output) where
  open services use {complete_typed}

  chosen_some : {A : Type 0} (b : Bool) (x y : A) → (if b then some x else none) ≡ some y → x ≡ y
  chosen_some true x y h = cc
  chosen_some false x y h = cc

  module _ (max_iterations total_ms : ℕ) (project_id user_instructions : Option Text) where
    -- The run of a model that answers every call ends with a validated output, if for one of the
    -- permitted iterations the answer to every prompt is valid: the result is built from an output
    -- and its own verdict, after at most `max_iterations` calls, all but the first of them retries.
    pub run-Succeeds :
        (k : ℕ)
        → ((j : ℕ) (prompt : Text)
            → is_some (complete_typed j (enriched_prompt mode services) prompt) ≡ true)
        → Succeeds mode services max_iterations (enriched_prompt mode services) k
        → 1 ≤ k
        → k ≤ max_iterations
        → (out : Output) × (calls : ℕ) × ((run mode services max_iterations total_ms project_id
              user_instructions).0
            ≡ mode.build_output (some out) (mode.validate_output out) (record {
              llm_calls = calls;
              retry_count = calls - 1;
              generation_time_ms = total_ms;
            }))
          × ((mode.validate_output out).is_valid ≡ true)
          × (calls ≤ max_iterations)
    unfolding run metadata_of start
    run-Succeeds k answers valid low high =
        let system = enriched_prompt mode services in
        let r =
          iterate mode services max_iterations system max_iterations 1 (start mode services) in
        let accepted =
          iterate-Succeeds mode services max_iterations system max_iterations 1 k
            (start mode services) answers valid low (omega arith) in
        let (out, last, verdict, good) =
          iterate-IsValidated mode services max_iterations system max_iterations 1
            (start mode services) accepted in
        let (entries, bound) =
          iterate-IsBounded mode services max_iterations system max_iterations 1 0
            (start mode services) (refl, refl) in
        (
          out,
          r.0.llm_calls,
          rw (last, verdict) refl,
          sym (ap (λ (v : ValidationResult). v.is_valid) verdict) ∙ good,
          omega arith,
        )

    -- A session that is not completed, or whose output passed its validation; in both cases it counts
    -- the calls and has one entry for each.
    abbrev pub IsSound : Session Output → Type 0
    IsSound session =
        (session.current_iteration ≤ max_iterations)
        × (length session.conversation ≡ session.current_iteration)
        × ((session.is_completed ≡ false)
            ⊎ ((out : Output) × (session.output ≡ some out)
                × ((mode.validate_output out).is_valid ≡ true)))

    session_of-IsSound :
        (s : Progress Output) (accepted : Bool)
        → (length s.conversation ≡ s.llm_calls) × (s.llm_calls ≤ 0 + max_iterations)
        → (accepted ≡ true → IsValidated mode services s)
        → IsSound (session_of mode services user_instructions s accepted)
    unfolding session_of
    session_of-IsSound s false (h, k) validated = (omega arith, h, inl refl)
    session_of-IsSound s true (h, k) validated =
        let (out, last, verdict, good) = validated refl in
        (
          omega arith,
          h,
          inr (out, last, sym (ap (λ (v : ValidationResult). v.is_valid) verdict) ∙ good),
        )

    -- A session that is recorded as completed has an output that passed its validation. Completed or
    -- not, it counts the calls, of which there are at most `max_iterations` and one entry for each.
    pub run-IsSound :
        (session : Session Output)
        → (run mode services max_iterations total_ms project_id user_instructions).1 ≡ some session
        → IsSound session
    unfolding run
    run-IsSound session h =
        let system = enriched_prompt mode services in
        let r =
          iterate mode services max_iterations system max_iterations 1 (start mode services) in
        subst (λ q. IsSound q)
          (chosen_some (mode.requires_enrichment && is_some project_id)
            (session_of mode services user_instructions r.0 r.1) session h)
          (session_of-IsSound r.0 r.1
            (iterate-IsBounded mode services max_iterations system max_iterations 1 0
              (start mode services) (unfold start in (refl, refl)))
            (iterate-IsValidated mode services max_iterations system max_iterations 1
              (start mode services)))
