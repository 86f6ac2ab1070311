-- ===== src/Errors/Distill.antt =====
-- DistillErrNotExist of internal/types/errors.go: what it lets through and what it drops.
use arch_agent.Base.{
  ◌≡◌, refl, Bool, true, false, ◌&&◌, not, Option, none, some, arith, if◌then◌else◌, inl, inr,
  Bool-cases, is_some,
}
use arch_agent.Errors.{
  Error, Errors, sentinel, joined, nil, cons, is_not_exist, errors_is, any_is, errors_join,
}

-- The loop over `errWrapper.Unwrap()`: `whole` is `err`, which the loop appends where it could
-- append `werr`.
unfoldable pub unexpected_errs : Error → Errors → Errors
unexpected_errs whole nil = nil
unexpected_errs whole (cons werr es) =
    let rest = unexpected_errs whole es in
    if errors_is werr is_not_exist then rest else cons whole rest

unfoldable pub distill_err_not_exist : Error → Option Error
unfolding unexpected_errs errors_join
distill_err_not_exist (joined es) = errors_join (unexpected_errs (joined es) es)
distill_err_not_exist err = if errors_is err is_not_exist then none else some err

-- Every part of the error is a missing thing.
unfoldable pub all_not_exist : Errors → Bool
all_not_exist nil = true
all_not_exist (cons e es) = errors_is e is_not_exist && all_not_exist es

unfoldable pub only_not_exist : Error → Bool
unfolding all_not_exist
only_not_exist (joined es) = all_not_exist es
only_not_exist err = errors_is err is_not_exist

unexpected_errs-nil :
    (whole : Error) (es : Errors) → all_not_exist es ≡ true → unexpected_errs whole es ≡ nil
unfolding unexpected_errs all_not_exist
unexpected_errs-nil whole nil h = refl
unexpected_errs-nil whole (cons e es) h = ground (arith, unexpected_errs-nil whole es)

unexpected_errs-cons :
    (whole : Error) (es : Errors)
    → all_not_exist es ≡ false
    → (rest : Errors) × (unexpected_errs whole es ≡ cons whole rest)
unfolding unexpected_errs all_not_exist
unexpected_errs-cons whole nil h = cc
unexpected_errs-cons whole (cons e es) h = elim (Bool-cases (errors_is e is_not_exist)) [
  | inl p ↦ let (rest, q) = unexpected_errs-cons whole es (ground arith) in (rest, ground arith)
  | inr p ↦ (unexpected_errs whole es, ground arith)
]

joined-cases : (es : Errors) → is_some (distill_err_not_exist (joined es)) ≡ not (all_not_exist es)
unfolding distill_err_not_exist
joined-cases es = elim (Bool-cases (all_not_exist es)) [
  | inl p ↦ ground (arith, unexpected_errs-nil (joined es) es p)
  | inr p ↦ ground (arith, unexpected_errs-cons (joined es) es p)
]

-- DistillErrNotExist swallows an error exactly if all of it, every part of a joined error or the
-- single error itself, is a missing thing; whatever else it is given it lets through as an error.
pub distill_err_not_exist-only :
    (err : Error) → is_some (distill_err_not_exist err) ≡ not (only_not_exist err)
unfolding distill_err_not_exist only_not_exist
distill_err_not_exist-only (joined es) = joined-cases es
distill_err_not_exist-only (sentinel s) = ground arith
distill_err_not_exist-only _ = ground arith

-- What a joined error with a missing thing and with another failure is distilled to still counts
-- as a missing thing: errors.Is finds ErrIsNotExist in it, since the whole error is appended for
-- each unexpected part.
pub distill_err_not_exist-mixed :
    (es : Errors)
    → any_is es is_not_exist ≡ true
    → all_not_exist es ≡ false
    → (r : Error) × (distill_err_not_exist (joined es) ≡ some r) × (errors_is r is_not_exist ≡ true)
unfolding distill_err_not_exist errors_is
distill_err_not_exist-mixed es some_missing some_other =
    let (rest, q) = unexpected_errs-cons (joined es) es some_other in
    (joined (cons (joined es) rest), ground arith, ground arith)
