-- ===== src/Bitcoin/Sighash/Each.antt =====
-- chain/bitcoin/tx.go: the hashes that `Sighashes` returns, one for each input in order.
use crosschain_enhanced_by_a.Prelude.{
  ℕ, suc, List, [], ◌∷◌, ◌≡◌, sym, subst, ok, >>=-eq-ok, ok_injective,
}
use crosschain_enhanced_by_a.Bitcoin.{Input}
use crosschain_enhanced_by_a.Bitcoin.Tx.{Tx}
use crosschain_enhanced_by_a.Bitcoin.Signing.{Scripts}
use crosschain_enhanced_by_a.Bitcoin.Sighash.{Hashing, sighash, sighashes_loop, sighashes}

-- The hashes of the inputs from the index `i` on.
unfoldable pub AreSighashes : Scripts → Hashing → Tx → ℕ → List Input → List (List ℕ) → Type 0
AreSighashes s h tx i [] hashes = hashes ≡ []
AreSighashes s h tx i (txin ∷ rest) [] = ⊥
AreSighashes s h tx i (txin ∷ rest) (hash ∷ hashes) =
    (sighash s h tx i txin ≡ ok hash) × AreSighashes s h tx (suc i) rest hashes

loop_each :
    (s : Scripts) (h : Hashing) (tx : Tx) (i : ℕ) (is : List Input) (hashes : List (List ℕ))
    → sighashes_loop s h tx i is ≡ ok hashes
    → AreSighashes s h tx i is hashes
unfolding sighashes_loop AreSighashes
loop_each s h tx i [] hashes e = sym (ok_injective e)
loop_each s h tx i (txin ∷ rest) hashes e =
    let first = >>=-eq-ok (sighash s h tx i txin) _ e in
    let others = >>=-eq-ok (sighashes_loop s h tx (suc i) rest) _ first.2 in
    subst (AreSighashes s h tx i (txin ∷ rest)) (ok_injective others.2)
      (first.1, loop_each s h tx (suc i) rest others.0 others.1)

-- The hashes that `Sighashes` returns are those of the inputs, one for each, in order.
pub sighashes-each :
    (s : Scripts) (h : Hashing) (tx : Tx) (hashes : List (List ℕ))
    → sighashes s h tx ≡ ok hashes
    → AreSighashes s h tx 0 tx.input.inputs hashes
unfolding sighashes
sighashes-each s h tx hashes e = loop_each s h tx 0 tx.input.inputs hashes e
