-- ===== src/Solana/ReadBack.antt =====
-- chain/solana: a transfer that the builder makes is read back by `ParseTransfer`.
use crosschain_enhanced_by_a.Prelude.{
  ℕ, Bool, true, false, List, [], ◌∷◌, ◌++◌, Option, none, some, ok, >>=-eq-ok, ok_injective, ◌≡◌,
  refl, ap, sym, subst, ◌∙◌, if◌then◌else◌,
}
use crosschain_enhanced_by_a.Prelude.Int.{ℤ, pos}
use crosschain_enhanced_by_a.Prelude.Text.{Text, eq_text, eq_text_refl}
use crosschain_enhanced_by_a.Bitcoin.Tx.{uint64}
use crosschain_enhanced_by_a.Solana.{
  Key, Failure, TxInput, Instruction, transfer, create_ata, transfer_checked, Decoded,
  system_transfer, token_checked, Sol, or_fail, key_of,
}
use crosschain_enhanced_by_a.Solana.Tx.{
  Tx, as_system_transfer, as_transfer_checked, read_instruction, search, find_instruction,
  get_system_transfer, get_token_transfer_checked, parse_transfer, from, to, to_alt, amount,
  contract_address,
}
use crosschain_enhanced_by_a.Solana.Builder.{unsigned, build_solana_tx, new_native_transfer}
use crosschain_enhanced_by_a.Solana.Laws.{ReadsAll, IsSol}

module _ (sol : Sol) (laws : IsSol sol) where
  pub or_fail-eq-ok :
      {A : Type 0} (e : Failure) (o : Option A) (a : A) → or_fail e o ≡ ok a → o ≡ some a
  or_fail-eq-ok e none a h = cc
  or_fail-eq-ok e (some b) a h = ap some (ok_injective h)

  pub key_of-prints : (s : Text) (k : Key) → key_of sol s ≡ ok k → sol.base58 k ≡ s
  unfolding key_of
  key_of-prints s k h = laws.prints s k (or_fail-eq-ok Failure.bad_key (sol.key_of_base58 s) k h)

  -- What a search reads off an instruction of its program, and off one of another program.
  read-mine :
      (program p : Key) (decode : List Key → sol.Compiled → Option Decoded)
      (cast : Decoded → Option Decoded) (t : sol.Transaction) (c : sol.Compiled)
      (accounts : List Key) (d : Decoded)
      → sol.program_of t c ≡ some p
      → eq_text p program ≡ true
      → sol.accounts_of t c ≡ some accounts
      → decode accounts c ≡ some d
      → read_instruction sol program decode cast t c ≡ cast d
  unfolding read_instruction
  read-mine program p decode cast t c accounts d h same k l =
      rw (read_instruction, h, same, k, l) refl

  read-foreign :
      (program p : Key) (decode : List Key → sol.Compiled → Option Decoded)
      (cast : Decoded → Option Decoded) (t : sol.Transaction) (c : sol.Compiled)
      → sol.program_of t c ≡ some p
      → eq_text p program ≡ false
      → read_instruction sol program decode cast t c ≡ none
  unfolding read_instruction
  read-foreign program p decode cast t c h same = rw (read_instruction, h, same) refl

  search_transfer :
      (t : sol.Transaction) (cs : List sol.Compiled) (n : ℕ) (a b : Key)
      → ReadsAll sol t cs (transfer n a b ∷ [])
      → search sol sol.system_id sol.decode_system as_system_transfer t cs
        ≡ some (system_transfer n a b)
  unfolding search
  search_transfer t [] n a b h = absurd h
  search_transfer t (c ∷ cs) n a b ((accounts, p, k, d), rest) =
      rw
        (read-mine sol.system_id sol.system_id sol.decode_system as_system_transfer t c accounts
          (system_transfer n a b) p (eq_text_refl sol.system_id) k d)
        refl

  -- The instructions of a token transfer.
  abbrev pub token_instructions : Bool → Key → Key → ℕ → ℕ → Key → Key → Key → List Instruction
  token_instructions creates wallet mint n decimals source destination owner =
      (if creates then create_ata owner wallet mint ∷ [] else [])
      ++ (transfer_checked n decimals source mint destination owner ∷ [])

  pub search_system-none :
      (t : sol.Transaction) (cs : List sol.Compiled) (creates : Bool) (w m : Key) (n d : ℕ)
      (s r o : Key)
      → ReadsAll sol t cs (token_instructions creates w m n d s r o)
      → search sol sol.system_id sol.decode_system as_system_transfer t cs ≡ none
  unfolding search
  search_system-none t [] creates w m n d s r o h = refl
  search_system-none t (c ∷ []) false w m n d s r o ((accounts, p, k, e), rest) =
      rw
        (read-foreign sol.system_id sol.token_id sol.decode_system as_system_transfer t c p
          laws.programs_differ)
        refl
  search_system-none t (c ∷ c' ∷ cs) false w m n d s r o h = absurd h.1
  search_system-none t (c ∷ []) true w m n d s r o h = absurd h.1
  search_system-none t (c ∷ c' ∷ []) true w m n d s r o
        ((q, p', f, g), ((accounts, p, k, e), rest)) =
      rw (read-foreign sol.system_id q sol.decode_system as_system_transfer t c p' f) (
        rw
          (read-foreign sol.system_id sol.token_id sol.decode_system as_system_transfer t c' p
            laws.programs_differ)
          refl)
  search_system-none t (c ∷ c' ∷ c'' ∷ cs) true w m n d s r o h = absurd h.1.1

  pub search_token :
      (t : sol.Transaction) (cs : List sol.Compiled) (creates : Bool) (w m : Key) (n d : ℕ)
      (s r o : Key)
      → ReadsAll sol t cs (token_instructions creates w m n d s r o)
      → search sol sol.token_id sol.decode_token as_transfer_checked t cs
        ≡ some (token_checked n m r o)
  unfolding search
  search_token t [] false w m n d s r o h = absurd h
  search_token t [] true w m n d s r o h = absurd h
  search_token t (c ∷ cs) false w m n d s r o ((accounts, p, k, e), rest) =
      rw
        (read-mine sol.token_id sol.token_id sol.decode_token as_transfer_checked t c accounts
          (token_checked n m r o) p (eq_text_refl sol.token_id) k e)
        refl
  search_token t (c ∷ []) true w m n d s r o h = absurd h.1
  search_token t (c ∷ c' ∷ cs) true w m n d s r o ((q, p', f, g), ((accounts, p, k, e), rest)) =
      rw (read-foreign sol.token_id q sol.decode_token as_transfer_checked t c p' g) (
        rw
          (read-mine sol.token_id sol.token_id sol.decode_token as_transfer_checked t c' accounts
            (token_checked n m r o) p (eq_text_refl sol.token_id) k e)
          refl)

  -- A transaction whose transfer has been read.
  abbrev pub parsed_as : sol.Transaction → Decoded → Tx sol
  parsed_as t d = record (unsigned sol t) { parsed_transfer = some d }

  parse-system :
      (t : sol.Transaction) (d : Decoded)
      → search sol sol.system_id sol.decode_system as_system_transfer t (sol.instructions_of t)
        ≡ some d
      → parse_transfer sol (unsigned sol t) ≡ parsed_as t d
  unfolding parse_transfer get_system_transfer find_instruction
  parse-system t d h = rw (parse_transfer, h) refl

  pub parse-checked :
      (t : sol.Transaction) (d : Decoded)
      → search sol sol.system_id sol.decode_system as_system_transfer t (sol.instructions_of t)
        ≡ none
      → search sol sol.token_id sol.decode_token as_transfer_checked t (sol.instructions_of t)
        ≡ some d
      → parse_transfer sol (unsigned sol t) ≡ parsed_as t d
  unfolding parse_transfer get_system_transfer get_token_transfer_checked find_instruction
  parse-checked t d h k = rw (parse_transfer, h, k) refl

  pub build-eq-ok :
      (is : List Instruction) (payer : Key) (input : TxInput) (tx : Tx sol)
      → build_solana_tx sol is payer input ≡ ok tx
      → (t : sol.Transaction) × (sol.new_transaction is input.recent_block_hash payer ≡ some t)
        × (unsigned sol t ≡ tx)
  unfolding build_solana_tx
  build-eq-ok is payer input tx e =
      let (t, made, same) =
        >>=-eq-ok
          (or_fail Failure.bad_transaction (sol.new_transaction is input.recent_block_hash payer)) _
          e in
      (
        t,
        or_fail-eq-ok Failure.bad_transaction (sol.new_transaction is input.recent_block_hash payer)
            t made,
        ok_injective same,
      )

  -- What is read off a native transfer.
  abbrev pub ReadsNative : Text → Text → ℤ → Tx sol → Type 0
  ReadsNative sender recipient value tx =
      (from sol tx ≡ ok sender)
      × (to sol tx ≡ ok recipient)
      × (amount sol tx ≡ pos (uint64 value))
      × (to_alt sol tx ≡ [])
      × (contract_address sol tx ≡ [])

  -- With the laws of the library, a native transfer that is built is read back by `ParseTransfer`: its sender, its recipient, and
  -- the low 64 bits of its amount.
  pub new_native_transfer-ReadsNative :
      (sender recipient : Text) (value : ℤ) (input : TxInput) (tx : Tx sol)
      → new_native_transfer sol sender recipient value input ≡ ok tx
      → ReadsNative sender recipient value (parse_transfer sol tx)
  unfolding new_native_transfer from to amount to_alt contract_address
  new_native_transfer-ReadsNative sender recipient value input tx e =
      let (a, from_known, e₁) = >>=-eq-ok (key_of sol sender) _ e in
      let (b, to_known, e₂) = >>=-eq-ok (key_of sol recipient) _ e₁ in
      let (t, made, same) = build-eq-ok (transfer (uint64 value) a b ∷ []) a input tx e₂ in
      let held = laws.holds (transfer (uint64 value) a b ∷ []) input.recent_block_hash a t made in
      let found = search_transfer t (sol.instructions_of t) (uint64 value) a b held in
      subst (ReadsNative sender recipient value)
        (sym (parse-system t (system_transfer (uint64 value) a b) found)
          ∙ ap (parse_transfer sol) same)
        (
          ap ok (key_of-prints sender a from_known),
          ap ok (key_of-prints recipient b to_known),
          refl,
          refl,
          refl,
        )
