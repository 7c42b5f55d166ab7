-- ===== src/Order/Proof.antt =====
-- The proof files of a sale or a cancellation: matchExpenseProofConditions and
-- enforceOperationProof of apps/order-service/src/lifecycle. Whether the storage holds a file is an
-- answer of the file service, and so a parameter.
use elchi_backend.Prelude.{
  ℕ, zero, suc, length, ◌++◌, ◌≢◌, Occurs, not-any-Occurs, Bool, true, false, not, ◌&&◌, ◌||◌, List,
  [], ◌∷◌, map, any, filter, ◌==◌, if◌then◌else◌, Text, text_eq, is_empty, trim, ◌≡◌, sym,
  Bool-cases, inl, inr,
}
use elchi_backend.Prelude.Int.{ℤ, pos, ltb_ℤ}
use elchi_backend.Prelude.Results.{Result, ok, err, bad_request, ok-injective}

-- `ExpenseProofCondition`
pub data ProofCondition : Type 0 where
  sell_any sell_extra_cost sell_zero_total cancel_any cancel_extra_cost cancel_zero_total :
      ProofCondition

abbrev pub ProofCondition_code : ProofCondition → ℕ
ProofCondition_code sell_any = 0
ProofCondition_code sell_extra_cost = 1
ProofCondition_code sell_zero_total = 2
ProofCondition_code cancel_any = 3
ProofCondition_code cancel_extra_cost = 4
ProofCondition_code cancel_zero_total = 5

pub data Action : Type 0 where
  sell cancel : Action

-- `matchExpenseProofConditions`
unfoldable pub match_expense_proof_conditions : Action → ℤ → ℤ → List ProofCondition
match_expense_proof_conditions sell extra_cost total =
    sell_any ∷ (if ltb_ℤ (pos 0) extra_cost then sell_extra_cost ∷ [] else [])
    ++ (if ltb_ℤ (pos 0) total then [] else sell_zero_total ∷ [])
match_expense_proof_conditions cancel extra_cost total =
    cancel_any ∷ (if ltb_ℤ (pos 0) extra_cost then cancel_extra_cost ∷ [] else [])
    ++ (if ltb_ℤ (pos 0) total then [] else cancel_zero_total ∷ [])

-- `new Set(keys)`, in the order of the first occurrences
abbrev pub without : Text → List Text → List Text
without k ks = filter (λ j. not (text_eq k j)) ks

abbrev pub distinct_keys : ℕ → List Text → List Text
distinct_keys zero ks = []
distinct_keys (suc n) [] = []
distinct_keys (suc n) (k ∷ ks) = k ∷ distinct_keys n (without k ks)

-- The keys that are kept: trimmed, not empty, each once.
unfoldable pub proof_keys : List Text → List Text
proof_keys sent =
    let ks = filter (λ k. not (is_empty k)) (map trim sent) in distinct_keys (length ks) ks

abbrev pub has_condition : List ProofCondition → ProofCondition → Bool
has_condition cs c = any (λ d. ProofCondition_code c == ProofCondition_code d) cs

-- `required`
unfoldable pub is_proof_required : List ProofCondition → Action → ℤ → ℤ → Bool → Bool
unfolding match_expense_proof_conditions
is_proof_required enabled action extra_cost total force =
    force || any (has_condition (match_expense_proof_conditions action extra_cost total)) enabled

-- The checks of keys of which a proof is required.
unfoldable pub verify_keys : (Text → Bool) → Bool → List Text → Result (List Text)
verify_keys exists verified [] = err bad_request
verify_keys exists verified (k ∷ ks) =
    if not verified && any (λ key. not (exists key)) (k ∷ ks) then err bad_request else ok (k ∷ ks)

-- `enforceOperationProof`. A policy without conditions requires nothing, so that the early return
-- of the source is the case in which `required` is false.
unfoldable pub enforce_operation_proof :
    (Text → Bool)
    → List ProofCondition
    → Action
    → ℤ
    → ℤ
    → List Text
    → Bool
    → Bool
    → Result (List Text)
unfolding is_proof_required proof_keys verify_keys
enforce_operation_proof exists enabled action extra_cost total sent force verified =
    if is_proof_required enabled action extra_cost total force
    then verify_keys exists verified (proof_keys sent)
    else ok (proof_keys sent)

verify_keys-ok :
    (exists : Text → Bool) (verified : Bool) (ks keys : List Text)
    → verify_keys exists verified ks ≡ ok keys
    → (keys ≢ []) × ((key : Text) → verified ≡ false → Occurs key keys → exists key ≡ true)
unfolding verify_keys
verify_keys-ok exists verified [] keys h = cc
verify_keys-ok exists verified (k ∷ ks) keys h =
    elim (Bool-cases (not verified && any (λ key. not (exists key)) (k ∷ ks))) [
      | inl t ↦ (cc (rw t at h))
      | inr f ↦
          let e : k ∷ ks ≡ keys = ok-injective (rw f at h) in
          (
            λ nil. cc,
            λ key nv o. elim (Bool-cases (exists key)) [
              | inl t ↦ t
              | inr gone ↦
                  let all : any (λ x. not (exists x)) (k ∷ ks) ≡ false = rw nv at f in
                  let kept =
                    not-any-Occurs (λ x. not (exists x)) (k ∷ ks) key all (rw (sym e) at o) in
                  let now : true ≡ false = rw gone at kept in cc
            ],
          )
    ]

-- When a proof is required, an operation that is let through has at least one key, and unless the
-- keys come verified each of them names a file that the storage holds.
enforce_operation_proof-required :
    (exists : Text → Bool) (enabled : List ProofCondition) (action : Action) (extra_cost total : ℤ)
    (sent keys : List Text) (force verified : Bool)
    → is_proof_required enabled action extra_cost total force ≡ true
    → enforce_operation_proof exists enabled action extra_cost total sent force verified ≡ ok keys
    → (keys ≢ []) × ((key : Text) → verified ≡ false → Occurs key keys → exists key ≡ true)
unfolding enforce_operation_proof
enforce_operation_proof-required exists enabled action extra_cost total sent keys force verified r
      h =
    verify_keys-ok exists verified (proof_keys sent) keys (rw r at h)
