-- ===== src/Edge/Steps.antt =====
-- Walks with a count of their edges. Without cycles no walk has more edges than the graph.
use aideep_backend.Common.{
  ℕ, zero, suc, ◌≤◌, ◌<◌, String, ◌≡◌, ◌≢◌, refl, sym, subst, not, ◌&&◌, List, [], ◌∷◌, arith, ◌==◌,
  eq_iff, length, keep, Memᴰ-cons, Memᴰ-nil,
}
use aideep_backend.Edge.Walk.{Link, link, HasEdge, Walk, here, step, IsAcyclic}
use aideep_backend.Edge.Acyclic.{IsSubgraph, IsAcyclic-mono}

-- `Steps es a b k`: a walk of `k` edges
abbrev pub Steps : List Link → String → String → ℕ → Type 0
Steps es a b zero = a ≡ b
Steps es a b (suc k) = (c : String) × HasEdge es a c × Steps es c b k

pub Steps-snoc :
    {es : List Link} {b c : String} (a : String) (k : ℕ)
    → Steps es a b k
    → HasEdge es b c
    → Steps es a c (suc k)
Steps-snoc {es} {b} {c} a zero e f = (c, subst (λ x. HasEdge es x c) (sym e) f, refl)
Steps-snoc a (suc k) (d, e, s) f = (d, e, Steps-snoc d k s f)

-- the graph without an edge
without : String → String → List Link → List Link
without a b = keep (λ e. not (e.source_id == a && e.target_id == b))

mem-without :
    (a b x y : String) (es : List Link) → x ≢ a → HasEdge es x y → HasEdge (without a b es) x y
unfolding without
mem-without a b x y [] ne m = m
mem-without a b x y (e ∷ es) ne m = ground (
  arith,
  eq_iff e.source_id a,
  mem-without a b x y es,
  Memᴰ-cons (link x y) e es,
  Memᴰ-cons (link x y) e (keep (λ e. not (e.source_id == a && e.target_id == b)) es),
)

mem_of_without : (a b : String) (es : List Link) → IsSubgraph (without a b es) es
unfolding without
mem_of_without a b [] x y m = m
mem_of_without a b (e ∷ es) x y m = ground (
  arith,
  mem_of_without a b es x y,
  Memᴰ-cons (link x y) e es,
  Memᴰ-cons (link x y) e (keep (λ e. not (e.source_id == a && e.target_id == b)) es),
)

length-without-le : (a b : String) (es : List Link) → length (without a b es) ≤ length es
unfolding without
length-without-le a b [] = omega arith
length-without-le a b (e ∷ es) = ground (arith, length-without-le a b es)

length-without-lt :
    (a b : String) (es : List Link) → HasEdge es a b → length (without a b es) < length es
unfolding without
length-without-lt a b [] m = absurd (Memᴰ-nil (link a b) m)
length-without-lt a b (e ∷ es) m = ground (
  arith,
  eq_iff e.source_id a,
  eq_iff e.target_id b,
  length-without-lt a b es,
  length-without-le a b es,
  Memᴰ-cons (link a b) e es,
)

-- behind an edge no walk takes it again
Steps-without :
    (es : List Link) (a b c : String)
    → IsAcyclic es
    → HasEdge es a b
    → (k : ℕ) (x : String) → Walk es b x
    → Steps es x c k
    → Steps (without a b es) x c k
Steps-without es a b c acyclic e zero x w s = s
Steps-without es a b c acyclic e (suc k) x w (y, f, s) = (
  y,
  mem-without a b x y es (λ same. acyclic.no_return a b e (subst (Walk es b) same w)) f,
  Steps-without es a b c acyclic e k y (step w f) s,
)

pub Steps-le-length :
    (n : ℕ) (es : List Link) (a c : String) (k : ℕ)
    → length es ≤ n
    → IsAcyclic es
    → Steps es a c k
    → k ≤ n
Steps-le-length n es a c zero h acyclic s = omega arith
Steps-le-length zero [] a c (suc k) h acyclic (b, e, s) = absurd (Memᴰ-nil (link a b) e)
Steps-le-length zero (_ ∷ es) a c (suc k) h acyclic s = absurd (omega arith)
Steps-le-length (suc n) es a c (suc k) h acyclic (b, e, s) = omega (
  arith,
  Steps-le-length n (without a b es) b c k (omega (arith, length-without-lt a b es e))
      (IsAcyclic-mono (mem_of_without a b es) acyclic)
      (Steps-without es a b c acyclic e k b here s),
)
