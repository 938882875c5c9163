-- ===== src/Solana/Laws.antt =====
-- chain/solana: what the properties of the driver rely on of solana-go.
use crosschain_enhanced_by_a.Prelude.{ℕ, false, List, [], ◌∷◌, some, ◌≡◌}
use crosschain_enhanced_by_a.Prelude.Text.{Text, eq_text}
use crosschain_enhanced_by_a.Solana.{
  Key, Instruction, transfer, create_ata, transfer_checked, close_account, system_transfer,
  token_checked, other, Sol,
}

module _ (sol : Sol) where
  -- A compiled instruction is of the program of the instruction, and decodes to what it says. The
  -- program of associated accounts is neither the system program nor the token program.
  abbrev pub Reads : sol.Transaction → sol.Compiled → Instruction → Type 0
  Reads t c (transfer n a b) =
      (accounts : List Key) × (sol.program_of t c ≡ some sol.system_id)
      × (sol.accounts_of t c ≡ some accounts)
      × (sol.decode_system accounts c ≡ some (system_transfer n a b))
  Reads t c (transfer_checked n decimals source mint destination owner) =
      (accounts : List Key) × (sol.program_of t c ≡ some sol.token_id)
      × (sol.accounts_of t c ≡ some accounts)
      × (sol.decode_token accounts c ≡ some (token_checked n mint destination owner))
  Reads t c (close_account a b o) =
      (accounts : List Key) × (sol.program_of t c ≡ some sol.token_id)
      × (sol.accounts_of t c ≡ some accounts)
      × (sol.decode_token accounts c ≡ some other)
  Reads t c (create_ata payer wallet mint) =
      (p : Key) × (sol.program_of t c ≡ some p)
      × (eq_text p sol.system_id ≡ false)
      × (eq_text p sol.token_id ≡ false)

  abbrev pub ReadsAll : sol.Transaction → List sol.Compiled → List Instruction → Type 0
  ReadsAll t [] [] = Unit
  ReadsAll t (c ∷ cs) [] = ⊥
  ReadsAll t [] (i ∷ is) = ⊥
  ReadsAll t (c ∷ cs) (i ∷ is) = Reads t c i × ReadsAll t cs is

  -- A key prints as the text that it was read from, a new transaction holds the instructions that it
  -- was made from, in their order, and the two programs differ.
  pub record IsSol : Type 0 where
    pub prints : (s : Text) (k : Key) → sol.key_of_base58 s ≡ some k → sol.base58 k ≡ s
    pub holds :
        (is : List Instruction) (hash : List ℕ) (payer : Key) (t : sol.Transaction)
        → sol.new_transaction is hash payer ≡ some t
        → ReadsAll t (sol.instructions_of t) is
    pub programs_differ : eq_text sol.token_id sol.system_id ≡ false
