-- ===== src/Publishing/State/Summary.antt =====
-- The summary of a content item depends only on which states its variants have.
use zernflow.Base.{◌≡◌, ◌≢◌, refl, ◌↔◌, Bool, true, not, ◌&&◌, ◌||◌, List, [], ◌∷◌, arith, all, All}
use zernflow.Publishing.State.{
  PublishState, draft, scheduled, queued, publishing, published, failed, cancelled, same, includes,
  of_state, summarize_publish_state,
}
use zernflow.Publishing.State.Paths.{same_sound}

-- A test of all states of a list, by which states occur.
abbrev unless_in : (PublishState → Bool) → List PublishState → PublishState → Bool
unless_in p xs s = p s || not (includes xs s)

all_by_includes :
    (p : PublishState → Bool) (xs : List PublishState)
    → all p xs ≡ (
        unless_in p xs draft
        && unless_in p xs scheduled
        && unless_in p xs queued
        && unless_in p xs publishing
        && unless_in p xs published
        && unless_in p xs failed
        && unless_in p xs cancelled)
all_by_includes p [] = ground arith
all_by_includes p (draft ∷ xs) = ground (arith, all_by_includes p xs)
all_by_includes p (x ∷ xs) = ground (arith, all_by_includes p xs)

module _ (xs ys : List PublishState)
    (agree : (s : PublishState) → includes xs s ≡ includes ys s) where
  all_agree : (p : PublishState → Bool) → all p xs ≡ all p ys
  all_agree p = rw (
    all_by_includes p xs,
    all_by_includes p ys,
    agree draft,
    agree scheduled,
    agree queued,
    agree publishing,
    agree published,
    agree failed,
    agree cancelled,
  )

summarize-cons :
    (x y : PublishState) (xs ys : List PublishState)
    → ((s : PublishState) → includes (x ∷ xs) s ≡ includes (y ∷ ys) s)
    → summarize_publish_state (x ∷ xs) ≡ summarize_publish_state (y ∷ ys)
unfolding summarize_publish_state
summarize-cons x y xs ys h = rw (
  all_agree (x ∷ xs) (y ∷ ys) h (λ z. same z published),
  all_agree (x ∷ xs) (y ∷ ys) h (λ z. same z failed),
  all_agree (x ∷ xs) (y ∷ ys) h (λ z. same z cancelled),
  all_agree (x ∷ xs) (y ∷ ys) h (λ s. same s published || same s failed || same s cancelled),
  h publishing,
  h queued,
  h scheduled,
  h published,
  h failed,
)

same_self : (x : PublishState) → same x x ≡ true
same_self x = ground arith

head_included : (x : PublishState) (xs : List PublishState) → includes (x ∷ xs) x ≡ true
head_included x xs = rw (same_self x)

-- Variants with the same set of states, in whatever order and number, have the same summary.
pub summarize_publish_state-includes :
    (xs ys : List PublishState)
    → ((s : PublishState) → includes xs s ≡ includes ys s)
    → summarize_publish_state xs ≡ summarize_publish_state ys
summarize_publish_state-includes [] [] h = refl
summarize_publish_state-includes [] (y ∷ ys) h = cc (h y, head_included y ys)
summarize_publish_state-includes (x ∷ xs) [] h = cc (h x, head_included x xs)
summarize_publish_state-includes (x ∷ xs) (y ∷ ys) h = summarize-cons x y xs ys h

all-All :
    (t : PublishState) (xs : List PublishState)
    → (all (λ x. same x t) xs ≡ true) ↔ All (λ x. x ≡ t) xs
all-All t [] = (λ h. tt, λ h. refl)
all-All t (x ∷ xs) = (
  λ h. (same_sound x t (ground arith), (all-All t xs).0 (ground arith)),
  λ h. rw (h.0, same_self t) ((all-All t xs).1 h.1),
)

first_test :
    (x : PublishState) (xs : List PublishState)
    → (summarize_publish_state (x ∷ xs) ≡ of_state published)
      ↔ (all (λ z. same z published) (x ∷ xs) ≡ true)
unfolding summarize_publish_state
first_test x xs = ground arith

-- Content counts as published exactly when it has a variant and every variant is published.
pub summarize_publish_state-published_iff :
    (xs : List PublishState)
    → (summarize_publish_state xs ≡ of_state published) ↔ ((xs ≢ []) × All (λ x. x ≡ published) xs)
summarize_publish_state-published_iff [] = (λ h. absurd (nothing h), λ h. absurd (h.0 refl))
  where
    nothing : summarize_publish_state [] ≢ of_state published
    nothing = unfold summarize_publish_state in λ h. cc
summarize_publish_state-published_iff (x ∷ xs) = (
  λ h. (λ e. cc, (all-All published (x ∷ xs)).0 ((first_test x xs).0 h)),
  λ h. (first_test x xs).1 ((all-All published (x ∷ xs)).1 h.1),
)
