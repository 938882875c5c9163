-- ===== src/Evm/Task/Value.antt =====
-- chain/evm/task.go: the method and the value of a task's payload, and the contract of a map.
use crosschain_enhanced_by_a.Prelude.{
  ℕ, Bool, true, false, ◌||◌, List, [], ◌∷◌, ◌++◌, Option, some, none, Result, ok, err, ◌>>=◌,
  >>=-eq-ok, ok_injective, ◌≡◌, refl, sym, ap, subst, ◌∙◌, arith, append_assoc, append-nil,
  if◌then◌else◌, Bool-cases, All, length, ◌==◌, inl, inr,
}
use crosschain_enhanced_by_a.Prelude.Int.{ℤ, pos}
use crosschain_enhanced_by_a.Prelude.Text.{Text, codes, eq_text, is_empty, equal_fold}
use crosschain_enhanced_by_a.Asset.Config.{AssetConfig}
use crosschain_enhanced_by_a.Evm.{Eth, Failure}
use crosschain_enhanced_by_a.Evm.Builder.{padded_amount}
use crosschain_enhanced_by_a.Evm.Item.{AnyValue, a_string, Param, Operation, Task}
use crosschain_enhanced_by_a.Evm.Number.{hex_decode}
use crosschain_enhanced_by_a.Evm.Task.{
  Payload, ParamState, Transfer, Decimals, contract_for, param_text, encode_text, bound_bytes,
  add_param, add_params, operation_contract, signature_bytes, operation_payload,
}

-- A parameter that is bound to the amount.
abbrev pub binds_amount : Param → Bool
binds_amount p = if is_empty p.bind then false else eq_text p.bind (codes "amount")

abbrev pub any_binds_amount : List Param → Bool
any_binds_amount [] = false
any_binds_amount (p ∷ ps) = binds_amount p || any_binds_amount ps

or_assoc : (a b c : Bool) → ((a || b) || c) ≡ (a || (b || c))
or_assoc true b c = refl
or_assoc false b c = refl

or_false : (a : Bool) → (a || false) ≡ a
or_false true = refl
or_false false = refl

module _ (eth : Eth) (amount : ℤ) where
  -- Where the amount is bound, it stands among the arguments, padded to 32 bytes.
  abbrev pub HoldsAmount : Bool → List ℕ → Type 0
  HoldsAmount false arguments = Unit
  HoldsAmount true arguments =
      (left : List ℕ) × (right : List ℕ) × (arguments ≡ left ++ (padded_amount amount ++ right))

  HoldsAmount-append :
      (a b : Bool) (one more : List ℕ)
      → HoldsAmount a one
      → HoldsAmount b more
      → HoldsAmount (a || b) (one ++ more)
  HoldsAmount-append false false one more h k = tt
  HoldsAmount-append false true one more h (left, right, e) =
      (one ++ left, right, ap (λ l. one ++ l) e ∙ sym (append_assoc one left _))
  HoldsAmount-append true b one more (left, right, e) k = (
    left,
    right ++ more,
    ap (λ l. l ++ more) e
        ∙ append_assoc left (padded_amount amount ++ right) more
        ∙ ap (λ l. left ++ l) (append_assoc (padded_amount amount) right more),
  )

  -- The data are the four bytes of the operation's signature and the arguments, and these hold the
  -- amount where a parameter is bound to it.
  abbrev pub HasMethod : Operation → Payload → Type 0
  HasMethod op payload =
      (method : List ℕ) × (arguments : List ℕ) × (hex_decode op.signature ≡ some method)
      × (length method ≡ 4)
      × (payload.data_bytes ≡ method ++ arguments)
      × HoldsAmount (any_binds_amount op.params) arguments

decoded_four :
    (o : Option (List ℕ)) {method : List ℕ}
    → ◌≡◌ {A = Result Failure (List ℕ)}
        (elim o [
          | none ↦ err Failure.method_signature
          | some bytes ↦ if length bytes == 4 then ok bytes else err Failure.method_signature
        ])
        (ok method)
    → (o ≡ some method) × (length method ≡ 4)
decoded_four none e = cc
decoded_four (some bytes) e = ground (arith, e)

signature_bytes-eq_ok :
    (signature : Text) {method : List ℕ}
    → signature_bytes signature ≡ ok method
    → (hex_decode signature ≡ some method) × (length method ≡ 4)
unfolding signature_bytes
signature_bytes-eq_ok signature e = decoded_four (hex_decode signature) e

module _ (eth : Eth) (decimals : Decimals) (t : Task) (asset : AssetConfig)
    (transfer : Transfer) where
  -- What the parameters add: bytes behind those there are, and the mark of a bound amount.
  abbrev pub Extends : ParamState → Bool → ParamState → Type 0
  Extends before bound after =
      (added : List ℕ) × (after.data_bytes ≡ before.data_bytes ++ added)
      × (after.value_consumed ≡ (before.value_consumed || bound))
      × HoldsAmount eth transfer.amount bound added

  -- The state with bytes added, and the next parameter of the user.
  abbrev with_bytes : ParamState → List ℕ → ℕ → ParamState
  with_bytes state bytes next = record state { data_bytes = state.data_bytes ++ bytes; next = next }

  add_param-free :
      (state : ParamState) (p : Param)
      → is_empty p.bind ≡ true
      → add_param eth decimals t asset transfer state p ≡ (
          param_text t asset transfer.input state.next p >>= λ found.
          encode_text eth decimals p.kind found.0 >>= λ bytes. ok (with_bytes state bytes found.1))
  unfolding add_param
  add_param-free state p free = rw (add_param, free) refl

  HoldsAmount-bound :
      (bind : Text)
      → HoldsAmount eth transfer.amount
          (eq_text bind (codes "amount"))
          (bound_bytes eth decimals asset transfer bind)
  unfolding bound_bytes
  HoldsAmount-bound bind = elim (Bool-cases (eq_text bind (codes "amount"))) [
    | inl h ↦ rw (bound_bytes, h) ([], [], sym (append-nil (padded_amount transfer.amount)))
    | inr h ↦ rw h tt
  ]

  -- The state after a parameter that is bound.
  abbrev after_bound : ParamState → Param → ParamState
  after_bound state p = record state {
    data_bytes = state.data_bytes ++ bound_bytes eth decimals asset transfer p.bind;
    value_consumed = state.value_consumed || eq_text p.bind (codes "amount");
  }

  add_param-bound :
      (state : ParamState) (p : Param)
      → is_empty p.bind ≡ false
      → add_param eth decimals t asset transfer state p ≡ ok (after_bound state p)
  unfolding add_param
  add_param-bound state p bound = rw (add_param, bound) refl

  add_param-Extends :
      (state : ParamState) (p : Param) {after : ParamState}
      → add_param eth decimals t asset transfer state p ≡ ok after
      → Extends state (binds_amount p) after
  add_param-Extends state p {after} added = elim (Bool-cases (is_empty p.bind)) [
    | inl free ↦
        let (found, _, rest) =
          >>=-eq-ok (param_text t asset transfer.input state.next p) _
            (sym (add_param-free state p free) ∙ added) in
        let (bytes, _, made) = >>=-eq-ok (encode_text eth decimals p.kind found.0) _ rest in
        rw (free) (
          subst (λ (s : ParamState). Extends state false s) (ok_injective made)
            (bytes, refl, sym (or_false state.value_consumed), tt))
    | inr bound ↦ rw (bound) (
        subst (λ (s : ParamState). Extends state (eq_text p.bind (codes "amount")) s)
          (ok_injective (sym (add_param-bound state p bound) ∙ added))
          (bound_bytes eth decimals asset transfer p.bind, refl, refl, HoldsAmount-bound p.bind))
  ]

  add_params-Extends :
      (ps : List Param) (state : ParamState) {after : ParamState}
      → add_params eth decimals t asset transfer state ps ≡ ok after
      → Extends state (any_binds_amount ps) after
  unfolding add_params
  add_params-Extends [] state e =
      subst (λ (s : ParamState). Extends state false s) (ok_injective e)
        ([], sym (append-nil state.data_bytes), sym (or_false state.value_consumed), tt)
  add_params-Extends (p ∷ ps) state e =
      let (next, here, rest) = >>=-eq-ok (add_param eth decimals t asset transfer state p) _ e in
      let (one, first, consumed, holds) = add_param-Extends state p here in
      let (more, second, consumed', holds') = add_params-Extends ps next rest in
      (
        one ++ more,
        second ∙ ap (λ l. l ++ more) first ∙ append_assoc state.data_bytes one more,
        consumed'
            ∙ ap (λ b. b || any_binds_amount ps) consumed
            ∙ or_assoc state.value_consumed (binds_amount p) (any_binds_amount ps),
        HoldsAmount-append eth transfer.amount (binds_amount p) (any_binds_amount ps) one more holds
            holds',
      )

  -- The data of an operation that is built are the four bytes of its signature and its arguments. Where
  -- a parameter is bound to the amount, the value is 0 and the amount stands among the arguments,
  -- padded to 32 bytes; otherwise the value is the amount.
  pub operation_payload-value :
      (op : Operation) {payload : Payload}
      → operation_payload eth decimals t asset transfer op ≡ ok payload
      → HasMethod eth transfer.amount op payload
        × (payload.value ≡ (if any_binds_amount op.params then pos 0 else transfer.amount))
  unfolding operation_payload
  operation_payload-value op built =
      let (to, _, k) = >>=-eq-ok (operation_contract t asset op.contract) _ built in
      let (method, signed, l) = >>=-eq-ok (signature_bytes op.signature) _ k in
      let start : ParamState = record { data_bytes = method; next = 0; value_consumed = false } in
      let (state, looped, made) =
        >>=-eq-ok (add_params eth decimals t asset transfer start op.params) _ l in
      let (arguments, bytes, consumed, holds) = add_params-Extends op.params start looped in
      let is = signature_bytes-eq_ok op.signature signed in
      subst
        (λ (p : Payload).
          HasMethod eth transfer.amount op p
          × (p.value ≡ (if any_binds_amount op.params then pos 0 else transfer.amount)))
        (ok_injective made) ((method, arguments, is.0, is.1, bytes, holds), rw (consumed) refl)

-- An entry of a map of contracts whose key and value are strings, the value being `contract` if the
-- key is the asset in any case.
abbrev pub Agrees : Text → Text → AnyValue × AnyValue → Type 0
Agrees asset contract entry =
    (k : Text) × (v : Text) × (entry ≡ (a_string k, a_string v))
    × (equal_fold k asset ≡ true → v ≡ contract)

contract_for-kept :
    (asset contract : Text) (entries : List (AnyValue × AnyValue))
    → All (Agrees asset contract) entries
    → contract_for asset contract entries ≡ ok contract
unfolding contract_for
contract_for-kept asset contract [] h = refl
contract_for-kept asset contract (e ∷ es) ((k, v, is, agrees), rest) =
    rw (contract_for, is)
      (elim (Bool-cases (equal_fold k asset)) [
        | inl same ↦ rw (same, agrees same) (contract_for-kept asset contract es rest)
        | inr other ↦ rw (other) (contract_for-kept asset contract es rest)
      ])

-- Where the entries of a map agree on the contract of an asset, and one of them has it, the contract is
-- found in whatever order the entries are visited.
pub contract_for-agreed :
    (asset contract found : Text) (k : Text) (before after : List (AnyValue × AnyValue))
    → equal_fold k asset ≡ true
    → All (Agrees asset contract) before
    → All (Agrees asset contract) after
    → contract_for asset found (before ++ (a_string k, a_string contract) ∷ after) ≡ ok contract
unfolding contract_for
contract_for-agreed asset contract found k [] after same hb ha =
    rw (contract_for, same) (contract_for-kept asset contract after ha)
contract_for-agreed asset contract found k (e ∷ es) after same ((k', v, is, agrees), rest) ha =
    rw (contract_for, is)
      (contract_for-agreed asset contract (if equal_fold k' asset then v else found) k es after same
        rest ha)
