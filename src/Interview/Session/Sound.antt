-- ===== src/Interview/Session/Sound.antt =====
-- What holds of every state of an interview, whatever the user writes and the model replies.
use oss_agent_tools.Prelude.{
  ℕ, ◌+◌, String, ◌≡◌, refl, ◌∙◌, List, [], ◌∷◌, ◌++◌, text_key, All, arith,
}
use oss_agent_tools.Numbers.{Arithmetic, IsOrdered}
use oss_agent_tools.AutoManage.Text.{Text}
use oss_agent_tools.Interview.{InterviewTurn, InterviewState}
use oss_agent_tools.Interview.Coverage.Justified.{
  IsJustified, dimension_ids, apply_coverage_updates-Keeps,
}
use oss_agent_tools.Interview.Session.Invariant.{IsKept, EndsKept, IsInvariant, run-Keeps}
use oss_agent_tools.Interview.Response.{ParsedResponse}
use oss_agent_tools.Interview.Session.{Interviewer, take_response, run, Setting}

-- The turns count up from the one after `k` to `n`.
abbrev pub Numbered : ℕ → List InterviewTurn → ℕ → Type 0
Numbered k [] n = k ≡ n
Numbered k (t ∷ ts) n = (t.turn_number ≡ k + 1) × Numbered (k + 1) ts n

Numbered-append :
    (k n : ℕ) (ts : List InterviewTurn) (t : InterviewTurn)
    → t.turn_number ≡ n + 1
    → Numbered k ts n
    → Numbered k (ts ++ t ∷ []) (n + 1)
Numbered-append k n [] t h e = (omega (arith, h, e), omega (arith, e))
Numbered-append k n (u ∷ us) t h (e, r) = (e, Numbered-append (k + 1) n us t h r)

module _ {N S : Type 0} (a : Arithmetic N) (ids : List String) where
  -- The turns are numbered from one to the count, a dimension is covered only where its confidence
  -- has reached its threshold, and the dimensions are the given ones.
  abbrev pub IsSound : InterviewState N S → Type 0
  IsSound s =
      Numbered 0 s.transcript s.turn_count
      × All (IsJustified a) s.dimension_coverage
      × (dimension_ids s.dimension_coverage ≡ ids)

module _ {N S : Type 0} (o : Setting N S) (laws : IsOrdered o.arithmetic) (ids : List String) where
  take_response-IsSound :
      (r : ParsedResponse N) (s : InterviewState N S)
      → IsSound o.arithmetic ids s
      → IsSound o.arithmetic ids (take_response o r s)
  unfolding take_response
  take_response-IsSound r s (n, j, d) =
      let (j', d') =
        apply_coverage_updates-Keeps o.arithmetic laws (s.turn_count + 1) o.dimensions
          r.coverage_updates s.dimension_coverage j in
      (Numbered-append 0 _ s.transcript _ refl n, j', d' ∙ d)

  IsSound-IsInvariant : IsInvariant o (IsSound o.arithmetic ids)
  IsSound-IsInvariant = record {
    keeps_input = λ text s (n, j, d). (Numbered-append 0 _ s.transcript _ refl n, j, d);
    keeps_response = take_response-IsSound;
    keeps_complete = λ s h. h;
    keeps_answers = λ answers s h. h;
  }

  -- Whatever the user writes and the model replies, the state at the end of a run and every state
  -- that it saves have their turns numbered from one to their count, cover a dimension only where
  -- its confidence has reached its threshold, and keep the dimensions, if the state and the saved
  -- ones did at the start, and the arithmetic is ordered.
  pub run-EndsKept :
      (inputs : List Text) (i : Interviewer N S)
      → IsKept (IsSound o.arithmetic ids) i
      → EndsKept (IsSound o.arithmetic ids) (run o inputs i)
  run-EndsKept inputs i k = run-Keeps o (IsSound o.arithmetic ids) IsSound-IsInvariant inputs i k
