-- ===== src/Termination/Verdict.antt =====
-- What a chain of termination predicates decides.
use sortie.Termination.{
  Status, proceed, is_proceed, World, Predicate, evaluate, Chain, last, linked, append_to_chain,
  evaluate_chain,
}
use sortie.Prelude.{if◌then◌else◌, ◌≡◌, refl, List, [], ◌∷◌, ◌++◌, arith}

-- The predicates in the order in which they are asked: the last one linked first.
abbrev pub in_order : Chain → List Predicate
in_order (last p) = p ∷ []
in_order (linked p c) = in_order c ++ p ∷ []

-- The first of a list that does not say PROCEED.
abbrev pub first_verdict : World → List Predicate → Status
first_verdict w [] = proceed
first_verdict w (p ∷ ps) =
    let rest = first_verdict w ps in if is_proceed (evaluate w p) then rest else evaluate w p

first_verdict-append :
    (w : World) (ps : List Predicate) (p : Predicate)
    → first_verdict w (ps ++ p ∷ [])
      ≡ (if is_proceed (first_verdict w ps) then evaluate w p else first_verdict w ps)
first_verdict-append w [] p = ground arith
first_verdict-append w (q ∷ ps) p = ground (arith, first_verdict-append w ps p)

-- A chain gives the verdict of the first of its predicates, the last one linked first, that does
-- not say PROCEED, and PROCEED if there is none.
pub evaluate_chain-first_verdict :
    (w : World) (c : Chain) → evaluate_chain w c ≡ first_verdict w (in_order c)
unfolding evaluate_chain
evaluate_chain-first_verdict w (last p) = ground arith
evaluate_chain-first_verdict w (linked p c) =
    ground (arith, evaluate_chain-first_verdict w c, first_verdict-append w (in_order c) p)

-- What is appended to a chain is asked before all of it: the chain decides only if what was
-- appended says PROCEED.
evaluate_chain-append :
    (w : World) (c child : Chain)
    → evaluate_chain w (append_to_chain c child)
      ≡ (if is_proceed (evaluate_chain w child) then evaluate_chain w c else evaluate_chain w child)
unfolding evaluate_chain append_to_chain
evaluate_chain-append w (last p) child = refl
evaluate_chain-append w (linked p c) child = ground (arith, evaluate_chain-append w c child)
