-- ===== src/Dispatch/Log.antt =====
-- The log of a search for a lease, and what is said of it.
use freebuff2api.Base.{
  ℕ, ◌≡◌, refl, Bool, true, false, ◌&&◌, ◌||◌, not, List, [], ◌∷◌, ◌++◌, ◌==◌, arith,
}
use freebuff2api.Manager.{Manager}
use freebuff2api.Dispatch.{
  Try, skipped, refused, Search, leased, failed, no_tokens, blocked, noting, having_tried, or_else,
}

abbrev pub was_refused : ℕ → List Try → Bool
was_refused a [] = false
was_refused a (skipped b s r ∷ log) = was_refused a log
was_refused a (refused b e ∷ log) = (a == b) || was_refused a log

-- `was_skipped a second log`: whether the first pass passed over `a`, which had no ready session then,
-- or the second pass did, and it had one.
abbrev pub same_pass : Bool → Bool → Bool
same_pass false s = not s
same_pass true s = s

abbrev pub was_skipped : ℕ → Bool → List Try → Bool
was_skipped a second [] = false
was_skipped a second (skipped b s r ∷ log) =
    ((a == b) && same_pass second s && same_pass second r) || was_skipped a second log
was_skipped a second (refused b e ∷ log) = was_skipped a second log

pub was_refused-append :
    (a : ℕ) (l k : List Try) → was_refused a (l ++ k) ≡ (was_refused a l || was_refused a k)
was_refused-append a [] k = refl
was_refused-append a (skipped b s r ∷ l) k = was_refused-append a l k
was_refused-append a (refused b e ∷ l) k = ground (arith, was_refused-append a l k)

pub was_skipped-append :
    (a : ℕ) (second : Bool) (l k : List Try)
    → was_skipped a second (l ++ k) ≡ (was_skipped a second l || was_skipped a second k)
was_skipped-append a second [] k = refl
was_skipped-append a second (skipped b s r ∷ l) k = ground (arith, was_skipped-append a second l k)
was_skipped-append a second (refused b e ∷ l) k = was_skipped-append a second l k

-- A pass has met the pool.
abbrev pub Met : Bool → ℕ → List Try → Type 0
Met second a log = (was_refused a log || was_skipped a second log) ≡ true

-- The pool has refused a lease, or both passes have passed over it, the first while it had no ready
-- session and the second while it had one.
abbrev pub Attempted : ℕ → List Try → Type 0
Attempted a log = (was_refused a log || (was_skipped a false log && was_skipped a true log)) ≡ true

-- What holds of the log of a search that fails.
abbrev pub Fails : (List Try → Type 0) → Search → Type 0
Fails P (failed m log) = P log
Fails P (leased m l) = Unit
Fails P no_tokens = Unit
Fails P blocked = Unit

pub Fails-weaken :
    (P Q : List Try → Type 0) (s : Search)
    → Fails P s
    → ((log : List Try) → P log → Q log)
    → Fails Q s
Fails-weaken P Q (failed m log) h f = f log h
Fails-weaken P Q (leased m l) h f = tt
Fails-weaken P Q no_tokens h f = tt
Fails-weaken P Q blocked h f = tt

pub noting-Fails :
    (P Q : List Try → Type 0) (t : Try) (s : Search)
    → Fails P s
    → ((log : List Try) → P log → Q (t ∷ log))
    → Fails Q (noting t s)
noting-Fails P Q t (failed m log) h f = f log h
noting-Fails P Q t (leased m l) h f = tt
noting-Fails P Q t no_tokens h f = tt
noting-Fails P Q t blocked h f = tt

pub having_tried-Fails :
    (Q R : List Try → Type 0) (l : List Try) (s : Search)
    → Fails Q s
    → ((k : List Try) → Q k → R (l ++ k))
    → Fails R (having_tried l s)
having_tried-Fails Q R l (failed m k) h f = f k h
having_tried-Fails Q R l (leased m k) h f = tt
having_tried-Fails Q R l no_tokens h f = tt
having_tried-Fails Q R l blocked h f = tt

pub or_else-Fails :
    (P Q R : List Try → Type 0) (s : Search) (f : Manager → Search)
    → Fails P s
    → ((m : Manager) → Fails Q (f m))
    → ((l k : List Try) → P l → Q k → R (l ++ k))
    → Fails R (or_else s f)
or_else-Fails P Q R (failed m l) f h g j = having_tried-Fails Q R l (f m) (g m) (λ k. j l k h)
or_else-Fails P Q R (leased m l) f h g j = tt
or_else-Fails P Q R no_tokens f h g j = tt
or_else-Fails P Q R blocked f h g j = tt
