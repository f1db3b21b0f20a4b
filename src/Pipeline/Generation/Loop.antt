-- ===== src/Pipeline/Generation/Loop.antt =====
-- The loop of generation_loop.py: how many calls it makes, and when it stops.
use kosmo.Base.{
  ℕ, zero, suc, ◌+◌, ◌≤◌, Bool, true, false, Option, none, some, List, [], ◌∷◌, ◌≡◌, refl, arith,
  length, if◌then◌else◌, length-append, Bool-cases, inl, inr, ◌==◌, ==_iff, ◌<◌, is_some, subst,
  sym,
}
use kosmo.Base.Text.{Text}
use kosmo.Pipeline.Generation.{
  ToolRecord, Mode, Services, Progress, with_answer, attempted, logged_tools, consulted,
  prepare_retry, retried, finish, iterate,
}

module _ {Output Result : Type 0} (mode : Mode Output Result) (services : Services Output) where
  open services use {resolve_knowledge_tools, complete_typed}

  -- The conversation has one entry for each call.
  abbrev pub IsCounted : ℕ → Progress Output → Type 0
  IsCounted calls s = (length s.conversation ≡ s.llm_calls) × (s.llm_calls ≡ calls)

  -- The last output and its verdict belong together, and the verdict is that it is valid.
  abbrev pub IsValidated : Progress Output → Type 0
  IsValidated s =
      (out : Output) × (s.last_output ≡ some out)
      × (s.last_validation ≡ mode.validate_output out)
      × (s.last_validation.is_valid ≡ true)

  logged_tools-IsCounted :
      (i calls : ℕ) (records : List ToolRecord) (s : Progress Output)
      → IsCounted calls s
      → IsCounted calls (logged_tools mode services i records s)
  unfolding logged_tools
  logged_tools-IsCounted i calls [] s h = h
  logged_tools-IsCounted i calls (r ∷ rs) s h = h

  consulted-IsCounted :
      (i calls : ℕ) (s : Progress Output) (o : Option (Text × List ToolRecord))
      → IsCounted calls s
      → IsCounted calls (consulted mode services i s o)
  unfolding consulted
  consulted-IsCounted i calls s none h = h
  consulted-IsCounted i calls s (some (context, records)) h =
      logged_tools-IsCounted i calls records _ h

  if-IsCounted :
      (calls : ℕ) (b : Bool) (s s' : Progress Output)
      → IsCounted calls s
      → IsCounted calls s'
      → IsCounted calls (if b then s else s')
  if-IsCounted calls true s s' h h' = h
  if-IsCounted calls false s s' h h' = h'

  with_answer-IsCounted :
      (i calls : ℕ) (s : Progress Output) (out : Output)
      → IsCounted calls s
      → IsCounted (suc calls) (with_answer mode services i s out)
  unfolding with_answer
  with_answer-IsCounted i calls s out (h, k) =
      (omega (arith, length-append {0} s.conversation _), omega arith)

  module _ (max_iterations : ℕ) (system : Text) where
    prepare_retry-IsCounted :
        (i calls : ℕ) (s : Progress Output)
        → IsCounted calls s
        → IsCounted calls (prepare_retry mode services max_iterations system i s)
    unfolding prepare_retry
    prepare_retry-IsCounted i calls s h =
        if-IsCounted calls _ _ _ (consulted-IsCounted i calls _ _ h) h

    -- What the loop leaves, when it may still call the model `left` times.
    abbrev pub IsBounded : ℕ → Progress Output → Type 0
    IsBounded most s = (length s.conversation ≡ s.llm_calls) × (s.llm_calls ≤ most)

    IsBounded-if :
        (most : ℕ) (b : Bool) (r r' : Progress Output × Bool)
        → IsBounded most r.0
        → IsBounded most r'.0
        → IsBounded most (if b then r else r').0
    IsBounded-if most true r r' h h' = h
    IsBounded-if most false r r' h h' = h'

    finish-IsBounded :
        (left i calls : ℕ) (s : Progress Output) (o : Option Output) (rest : Progress Output × Bool)
        → IsCounted calls s
        → IsBounded (suc calls + left) rest.0
        → IsBounded
            (calls + suc left)
            (finish mode services s (attempted mode services i s o) rest).0
    unfolding finish attempted
    finish-IsBounded left i calls s none rest (h, k) bounded = (h, omega arith)
    finish-IsBounded left i calls s (some out) rest h (b, c) =
        let (h', k') = with_answer-IsCounted i calls s out h in
        IsBounded-if (calls + suc left) _ _ rest (h', omega arith) (b, omega arith)

    -- The iterations after this one, whichever way it ended.
    rest-IsBounded :
        (left i calls : ℕ) (s : Progress Output) (o : Option Output)
        → IsCounted calls s
        → ((calls' : ℕ) (s' : Progress Output)
            → IsCounted calls' s'
            → IsBounded
                (calls' + left)
                (iterate mode services max_iterations system left (suc i) s').0)
        → IsBounded
            (suc calls + left)
            (iterate mode services max_iterations system left
              (suc i)
              (retried mode services max_iterations system i s (attempted mode services i s o))).0
    unfolding retried attempted
    rest-IsBounded left i calls s none h ih = let (b, c) = ih calls s h in (b, omega arith)
    rest-IsBounded left i calls s (some out) h ih =
        ih (suc calls) _
          (prepare_retry-IsCounted i (suc calls) _ (with_answer-IsCounted i calls s out h))

    pub iterate-IsBounded :
        (left i calls : ℕ) (s : Progress Output)
        → IsCounted calls s
        → IsBounded (calls + left) (iterate mode services max_iterations system left i s).0
    unfolding iterate
    iterate-IsBounded zero i calls s (h, k) = (h, omega arith)
    iterate-IsBounded (suc left) i calls s h =
        finish-IsBounded left i calls s (complete_typed i system s.user_prompt) _ h (
          rest-IsBounded left i calls s (complete_typed i system s.user_prompt) h
            (iterate-IsBounded left (suc i)))

    chosen-IsValidated :
        (b : Bool) (s : Progress Output) (rest : Progress Output × Bool)
        → (b ≡ true → IsValidated s)
        → (rest.1 ≡ true → IsValidated rest.0)
        → (if b then (s, true) else rest).1 ≡ true
        → IsValidated (if b then (s, true) else rest).0
    chosen-IsValidated true s rest valid ih h = valid refl
    chosen-IsValidated false s rest valid ih h = ih h

    finish-IsValidated :
        (i : ℕ) (s : Progress Output) (o : Option Output) (rest : Progress Output × Bool)
        → (rest.1 ≡ true → IsValidated rest.0)
        → (finish mode services s (attempted mode services i s o) rest).1 ≡ true
        → IsValidated (finish mode services s (attempted mode services i s o) rest).0
    unfolding finish attempted with_answer
    finish-IsValidated i s none rest ih h = cc
    finish-IsValidated i s (some out) rest ih h =
        chosen-IsValidated (mode.validate_output out).is_valid (with_answer mode services i s out)
          rest (λ e. (out, refl, refl, e)) ih h

    pub iterate-IsValidated :
        (left i : ℕ) (s : Progress Output)
        → (iterate mode services max_iterations system left i s).1 ≡ true
        → IsValidated (iterate mode services max_iterations system left i s).0
    unfolding iterate
    iterate-IsValidated zero i s h = cc
    iterate-IsValidated (suc left) i s h =
        finish-IsValidated i s (complete_typed i system s.user_prompt) _
          (iterate-IsValidated left (suc i) _) h

    -- The model answers an iteration with a valid output, whatever the prompt is.
    abbrev pub Succeeds : ℕ → Type 0
    Succeeds i =
        (prompt : Text)
        → (out : Output) × (complete_typed i system prompt ≡ some out)
          × ((mode.validate_output out).is_valid ≡ true)

    chosen_true :
        (b : Bool) (s : Progress Output) (rest : Progress Output × Bool)
        → rest.1 ≡ true
        → (if b then (s, true) else rest).1 ≡ true
    chosen_true true s rest r = refl
    chosen_true false s rest r = r

    finish_answered :
        (i : ℕ) (s : Progress Output) (o : Option Output) (rest : Progress Output × Bool)
        → is_some o ≡ true
        → rest.1 ≡ true
        → (finish mode services s (attempted mode services i s o) rest).1 ≡ true
    unfolding finish attempted with_answer
    finish_answered i s none rest h r = cc
    finish_answered i s (some out) rest h r =
        chosen_true (mode.validate_output out).is_valid (with_answer mode services i s out) rest r

    finish_valid :
        (i : ℕ) (s : Progress Output) (o : Option Output) (rest : Progress Output × Bool)
        (out : Output)
        → o ≡ some out
        → (mode.validate_output out).is_valid ≡ true
        → (finish mode services s (attempted mode services i s o) rest).1 ≡ true
    unfolding finish attempted with_answer
    finish_valid i s o rest out e valid = rw (e, valid)

    pub iterate-Succeeds :
        (left i k : ℕ) (s : Progress Output)
        → ((j : ℕ) (prompt : Text) → is_some (complete_typed j system prompt) ≡ true)
        → Succeeds k
        → i ≤ k
        → k < i + left
        → (iterate mode services max_iterations system left i s).1 ≡ true
    unfolding iterate
    iterate-Succeeds zero i k s answers valid low high = ground arith
    iterate-Succeeds (suc left) i k s answers valid low high = elim (Bool-cases (i == k)) [
      | inl e ↦
          let same = (==_iff i k).0 e in
          let (out, found, good) = subst (λ j. Succeeds j) (sym same) valid s.user_prompt in
          finish_valid i s _ _ out found good
      | inr e ↦ finish_answered i s _ _ (answers i s.user_prompt) (
          iterate-Succeeds left (suc i) k _ answers valid (ground (arith, ==_iff i k))
            (omega arith))
    ]
