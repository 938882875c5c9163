-- ===== src/Sui/Run/Merge.antt =====
-- The merge of the coins of a transfer collects the balances of all of them.
use crosschain_enhanced_by_a.Prelude.{
  ℕ, zero, suc, ◌+◌, ◌/◌, ◌^◌, ◌<◌, List, [], ◌∷◌, ◌++◌, map, Option, some, ok, ok_injective, ◌≡◌,
  refl, sym, ap, ap₂, ◌∙◌, subst, arith, append_assoc, length, length-append, get_elem?,
}
use crosschain_enhanced_by_a.Bitcoin.Signing.{set_elem}
use crosschain_enhanced_by_a.Bitcoin.Signing.Each.{get_elem?-append, set_elem-append}
use crosschain_enhanced_by_a.Sui.{Coin}
use crosschain_enhanced_by_a.Sui.Util.{ObjectRef, little_endian_bytes}
use crosschain_enhanced_by_a.Sui.Builder.{CallArg, object}
use crosschain_enhanced_by_a.Sui.Budget.{balances}
use crosschain_enhanced_by_a.Sui.Shape.{inputs_from, objects_of, objects_of-eq_ok}
use crosschain_enhanced_by_a.Sui.Run.{Slot, coin, used, le_value, load, collect}

pub le_value-little_endian_bytes :
    (size n : ℕ) → n < 256 ^ size → le_value (little_endian_bytes size n) ≡ n
unfolding le_value little_endian_bytes
le_value-little_endian_bytes zero n h = omega (arith, h)
le_value-little_endian_bytes (suc size) n h =
    let smaller : n / 256 < 256 ^ size = omega (arith, h) in
    omega (arith, le_value-little_endian_bytes size (n / 256) smaller)

-- A coin for each balance, and a slot used up for each.
abbrev pub coins_of : List Coin → List Slot
coins_of = map (λ (c : Coin). coin c.balance)

abbrev pub all_used : List Coin → List Slot
all_used = map (λ (c : Coin). used)

-- The inputs of the objects of some coins, loaded with their balances.
pub load-objects :
    (decode : List ℕ → List ℕ) (cs : List Coin) {objs : List ObjectRef} (rest : List CallArg)
    → objects_of decode cs ≡ ok objs
    → load (map (λ (o : ObjectRef). object o) objs ++ rest) (map (λ (c : Coin). c.balance) cs)
      ≡ coins_of cs ++ load rest []
unfolding load
load-objects decode [] rest h =
    subst (λ os. load (map (λ (o : ObjectRef). object o) os ++ rest) [] ≡ load rest [])
      (ok_injective h) refl
load-objects decode (c ∷ cs) rest h =
    let (obj, objs, _, more, made) = objects_of-eq_ok decode c cs h in
    subst
      (λ os.
        load (map (λ (o : ObjectRef). object o) os ++ rest) (map (λ (x : Coin). x.balance) (c ∷ cs))
        ≡ coins_of (c ∷ cs) ++ load rest [])
      made (ap (λ l. coin c.balance ∷ l) (load-objects decode cs rest more))

pub length-objects_of :
    (decode : List ℕ → List ℕ) (cs : List Coin) {objs : List ObjectRef}
    → objects_of decode cs ≡ ok objs
    → length objs ≡ length cs
length-objects_of decode [] h = sym (ap length (ok_injective h))
length-objects_of decode (c ∷ cs) h =
    let (obj, objs, _, more, made) = objects_of-eq_ok decode c cs h in
    sym (ap length made) ∙ ap suc (length-objects_of decode cs more)

-- The coins behind some slots are all used up, and their balances added.
pub collect-inputs_from :
    (cs : List Coin) (gas : ℕ) (before after : List Slot) (results : List (Option ℕ))
    (sent : List (ℕ × List ℕ)) (k sum : ℕ)
    → length before ≡ k
    → collect
        (inputs_from k (length cs))
        (record {
          gas = gas;
          slots = before ++ (coins_of cs ++ after);
          results = results;
          sent = sent;
        })
        sum
      ≡ some (
        record {
          gas = gas;
          slots = before ++ (all_used cs ++ after);
          results = results;
          sent = sent;
        },
        sum + balances cs,
      )
unfolding collect
collect-inputs_from [] gas before after results sent k sum f =
    let nothing : sum ≡ sum + 0 = omega arith in
    ap
      (λ (n : ℕ).
        some (record { gas = gas; slots = before ++ after; results = results; sent = sent }, n))
      nothing
collect-inputs_from (c ∷ cs) gas before after results sent k sum f =
    let tail = coins_of cs ++ after in
    let here : get_elem? (before ++ coin c.balance ∷ tail) k ≡ some (coin c.balance) =
      subst (λ n. get_elem? (before ++ coin c.balance ∷ tail) n ≡ some (coin c.balance)) f
        (get_elem?-append before (coin c.balance) tail) in
    let gone : set_elem (before ++ coin c.balance ∷ tail) k used ≡ before ++ used ∷ [] ++ tail =
      subst (λ n. set_elem (before ++ coin c.balance ∷ tail) n used ≡ before ++ used ∷ [] ++ tail) f
        (set_elem-append before (coin c.balance) used tail
          ∙ sym (append_assoc before (used ∷ []) tail)) in
    let filled : length (before ++ used ∷ []) ≡ suc k =
      omega (arith, f, length-append before (used ∷ [])) in
    let rest =
      collect-inputs_from cs gas (before ++ used ∷ []) after results sent (suc k) (sum + c.balance)
        filled in
    let sums : sum + c.balance + balances cs ≡ sum + (c.balance + balances cs) = omega arith in
    rw (collect, here, gone, rest)
      (ap₂
        (λ (l : List Slot) (n : ℕ).
          some (record { gas = gas; slots = l; results = results; sent = sent }, n))
        (append_assoc before (used ∷ []) (all_used cs ++ after)) sums)
