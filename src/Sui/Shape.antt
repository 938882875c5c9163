-- ===== src/Sui/Shape.antt =====
-- chain/sui/builder.go: the inputs and the commands that `NewTransfer` makes, in closed form.
use crosschain_enhanced_by_a.Prelude.{
  ℕ, zero, suc, ◌+◌, ◌%◌, ◌^◌, ◌≤◌, ◌<◌, true, false, List, [], ◌∷◌, ◌++◌, map, Option, Result, ok,
  ◌>>=◌, >>=-eq-ok, ok_injective, ◌≡◌, refl, sym, ap₂, ◌∙◌, subst, arith, append_assoc, append-nil,
  ltb, length, length-append, take,
}
use crosschain_enhanced_by_a.Sui.{Coin, Failure}
use crosschain_enhanced_by_a.Sui.Util.{ObjectRef, coin_to_object}
use crosschain_enhanced_by_a.Sui.Builder.{
  CallArg, Argument, Program, object, input, argument_input, merge_rest,
}

-- The arguments of `n` inputs from the one at `k` on.
abbrev pub inputs_from : ℕ → ℕ → List Argument
inputs_from k zero = []
inputs_from k (suc n) = input k ∷ inputs_from (suc k) n

module _ (decode : List ℕ → List ℕ) where
  -- The objects of the coins, in order, where every coin has one.
  abbrev pub objects_of : List Coin → Result Failure (List ObjectRef)
  objects_of [] = ok []
  objects_of (c ∷ cs) = do obj ← coin_to_object decode c; objs ← objects_of cs; ok (obj ∷ objs)

  -- A coin and its object, and those behind it.
  pub objects_of-eq_ok :
      (c : Coin) (cs : List Coin) {all : List ObjectRef}
      → objects_of (c ∷ cs) ≡ ok all
      → (obj : ObjectRef) × (objs : List ObjectRef) × (coin_to_object decode c ≡ ok obj)
        × (objects_of cs ≡ ok objs)
        × (obj ∷ objs ≡ all)
  objects_of-eq_ok c cs h =
      let (obj, one, k) = >>=-eq-ok (coin_to_object decode c) _ h in
      let (objs, rest, made) = >>=-eq-ok (objects_of cs) _ k in
      (obj, objs, one, rest, ok_injective made)

  pub objects_cons :
      (c : Coin) (cs : List Coin) (obj : ObjectRef) (objs : List ObjectRef)
      → coin_to_object decode c ≡ ok obj
      → objects_of cs ≡ ok objs
      → objects_of (c ∷ cs) ≡ ok (obj ∷ objs)
  objects_cons c cs obj objs one rest = rw (objects_of, one, rest) refl

  -- What the loop over the coins gives, where `n` may still be merged: the objects of those coins, and
  -- their arguments.
  abbrev pub Merged :
      ℕ → List CallArg → List Argument → List Coin → List CallArg × List Argument → Type 0
  Merged n inputs merged coins found =
      (objs : List ObjectRef) × (objects_of (take n coins) ≡ ok objs)
      × (found.0 ≡ inputs ++ map (λ (o : ObjectRef). object o) objs)
      × (found.1 ≡ merged ++ inputs_from (length inputs) (length objs))

  nothing-Merged :
      (n : ℕ) (inputs : List CallArg) (merged : List Argument) (coins : List Coin)
      → objects_of (take n coins) ≡ ok []
      → Merged n inputs merged coins (inputs, merged)
  nothing-Merged n inputs merged coins none_left =
      ([], none_left, sym (append-nil inputs), sym (append-nil merged))

  merge_rest-step :
      (c : Coin) (cs : List Coin) (i : ℕ) (inputs : List CallArg) (merged : List Argument)
      → i ≤ 50
      → merge_rest decode i inputs merged (c ∷ cs) ≡ (
          coin_to_object decode c >>= λ obj.
          merge_rest decode
            (suc i)
            (inputs ++ object obj ∷ [])
            (merged ++ argument_input (length inputs) ∷ [])
            cs)
  unfolding merge_rest
  merge_rest-step c cs i inputs merged h =
      let within : ltb 50 i ≡ false = ground (arith, h) in rw (merge_rest, within) refl

  pub merge_rest-Merged :
      (coins : List Coin) (n i : ℕ) (inputs : List CallArg) (merged : List Argument)
      {found : List CallArg × List Argument}
      → i + n ≡ 51
      → length inputs + n < 2 ^ 16
      → merge_rest decode i inputs merged coins ≡ ok found
      → Merged n inputs merged coins found
  unfolding merge_rest
  merge_rest-Merged [] zero i inputs merged count small e =
      subst (Merged zero inputs merged []) (ok_injective e)
        (nothing-Merged zero inputs merged [] refl)
  merge_rest-Merged [] (suc n) i inputs merged count small e =
      subst (Merged (suc n) inputs merged []) (ok_injective e)
        (nothing-Merged (suc n) inputs merged [] refl)
  merge_rest-Merged (c ∷ cs) zero i inputs merged count small e =
      let past : ltb 50 i ≡ true = ground (arith, count) in
      let done : merge_rest decode i inputs merged (c ∷ cs) ≡ ok (inputs, merged) =
        rw (merge_rest, past) refl in
      subst (Merged zero inputs merged (c ∷ cs)) (ok_injective (sym done ∙ e))
        (nothing-Merged zero inputs merged (c ∷ cs) refl)
  merge_rest-Merged (c ∷ cs) (suc n) i inputs merged count small e =
      let (obj, one, rest) =
        >>=-eq-ok (coin_to_object decode c) _
          (sym (merge_rest-step c cs i inputs merged (omega (arith, count))) ∙ e) in
      let more : length (inputs ++ object obj ∷ []) ≡ suc (length inputs) =
        omega (arith, length-append inputs (object obj ∷ [])) in
      let (objs, listed, inputs_are, merged_are) =
        merge_rest-Merged cs n (suc i) (inputs ++ object obj ∷ [])
          (merged ++ argument_input (length inputs) ∷ []) (omega (arith, count))
          (omega (arith, small, more)) rest in
      let fits : length inputs % 2 ^ 16 ≡ length inputs = omega (arith, small) in
      (
        obj ∷ objs,
        objects_cons c (take n cs) obj objs one listed,
        inputs_are ∙ append_assoc inputs (object obj ∷ []) (map (λ (o : ObjectRef). object o) objs),
        merged_are
            ∙ append_assoc merged (argument_input (length inputs) ∷ [])
                (inputs_from (length (inputs ++ object obj ∷ [])) (length objs))
            ∙ ap₂ (λ (k m : ℕ). merged ++ input k ∷ inputs_from m (length objs)) fits more,
      )

  -- The inputs and the commands before the payment: those of the split of the gas coin, the objects of the
  -- coins, and their merge into the first.
  abbrev pub Prepared : Program × Option Argument → List ObjectRef → Program
  Prepared (program, remainder) objs = program
