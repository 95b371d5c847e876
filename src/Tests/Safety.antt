-- ===== src/Tests/Safety.antt =====
-- Runs of the checks on a model's answers.
use praxis_interview_os.Base.{refl, false, [], ◌∷◌, arith, is_space}
use praxis_interview_os.Gateway.OutputSafety.{
  Fields, end, field, number, text, items, nil, item, validate_structured_output, object,
}
use praxis_interview_os.Gateway.OutputSafety.Patterns.{is_found}
use praxis_interview_os.Gateway.OutputSafety.Passed.{
  Passes, head_field, tail_field, here, in_items, head_item,
}
use praxis_interview_os.Gateway.OutputSafety.Safe.{Place, text_at, IsSafeAt, passed_safe}

-- A score of 7.5 with a list of one reason.
abbrev answer : Fields
answer =
    field "star_score" (number false 7_500)
      (field "reasons" (items (item (text "ignore the noise") nil)) end)

answer-Passes : Passes (validate_structured_output answer ("star_score" ∷ []))
unfolding validate_structured_output is_found is_space
answer-Passes = refl

-- The reason.
abbrev reason : Place answer ("star_score" ∷ [])
reason =
    text_at 1 "ignore the noise" (omega arith)
      (tail_field (head_field (in_items (head_item (here refl)))))

passed_safe_example : IsSafeAt reason
passed_safe_example = passed_safe answer ("star_score" ∷ []) reason answer-Passes

-- A score in a list of lists is not looked at.
hidden-Passes : Passes (
    validate_structured_output
      (field "all"
        (items
          (item (items (item (object (field "star_score" (number false 99_000) end)) nil)) nil))
        end)
      [])
unfolding validate_structured_output
hidden-Passes = refl
