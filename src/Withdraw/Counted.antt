-- ===== src/Withdraw/Counted.antt =====
-- Lemmas on the counts of checkWithdrawalDailyLimit, read under a key.
use crynux_relay_wallet.Base.{
  ℕ, ◌+◌, String, ◌≡◌, refl, sym, ap, ◌∙◌, inl, inr, Bool, true, false, ◌&&◌, ◌||◌, List, [], ◌∷◌,
  arith, str_eq, eq_iff, if◌then◌else◌, Bool-cases, any, count,
}
use crynux_relay_wallet.Models.Records.{WithdrawRecord}
use crynux_relay_wallet.Withdraw.Authorization.{WithdrawalRequest}
use crynux_relay_wallet.Withdraw.Limits.{
  WithdrawalDailyLimitKey, key_eq, KeyCounts, increment_key, increment_known, count_requests,
  count_records,
}

same_text : (a b : String) (c : Bool) → (str_eq a b && c) ≡ true → a ≡ b
same_text a b c h = ground (arith, eq_iff a b)

same_text_right : (c : Bool) (a b : String) → (c && str_eq a b) ≡ true → a ≡ b
same_text_right c a b h = ground (arith, eq_iff a b)

pub key_eq-same : (a b : WithdrawalDailyLimitKey) → key_eq a b ≡ true → a ≡ b
key_eq-same (n, a) (m, b) h =
    simp (same_text n m (str_eq a b) h, same_text_right (str_eq n m) a b h)

-- The count under a key.
unfoldable pub count_in : WithdrawalDailyLimitKey → KeyCounts → ℕ
count_in key [] = 0
count_in key ((k, n) ∷ m) = let rest = count_in key m in if key_eq k key then n else rest

unfoldable pub has_key : WithdrawalDailyLimitKey → KeyCounts → Bool
has_key key [] = false
has_key key ((k, n) ∷ m) = key_eq k key || has_key key m

abbrev pub one_if : Bool → ℕ
one_if b = if b then 1 else 0

key_eq-of : (k j key : WithdrawalDailyLimitKey) → key_eq k j ≡ true → key_eq k key ≡ key_eq j key
key_eq-of k j key h = ap (λ x. key_eq x key) (key_eq-same k j h)

-- Two keys that are not the same are not both the same as a third.
key_eq-apart :
    (k j key : WithdrawalDailyLimitKey)
    → key_eq k j ≡ false
    → key_eq k key ≡ true
    → key_eq j key ≡ false
key_eq-apart k j key h e = elim (Bool-cases (key_eq j key)) [
  | inr differs ↦ differs
  | inl h' ↦
      (let here : key_eq key key ≡ true = sym (key_eq-of j key key h') ∙ h' in
        let swapped : key_eq key j ≡ key_eq key key =
          ap (λ x. key_eq key x) (key_eq-same j key h') in
        let both : key_eq k j ≡ true = key_eq-of k key j e ∙ swapped ∙ here in cc)
]

-- `counts[k]++`, read under any key.
count_in-increment_key :
    (key k : WithdrawalDailyLimitKey) (m : KeyCounts)
    → count_in key (increment_key k m) ≡ one_if (key_eq k key) + count_in key m
unfolding count_in increment_key
count_in-increment_key key k [] = ground arith
count_in-increment_key key k ((j, n) ∷ m) = elim (Bool-cases (key_eq j k)) [
  | inl h ↦ (let same = key_eq-of j k key h in ground (arith, h, same))
  | inr h ↦
      (let ih = count_in-increment_key key k m in
        elim (Bool-cases (key_eq j key)) [
          | inl e ↦ (let n = key_eq-apart j k key h e in ground (arith, h, e, n))
          | inr e ↦ ground (arith, h, e, ih)
        ])
]

-- A count for a key that is there, read under any key that is there.
count_in-increment_known :
    (key k : WithdrawalDailyLimitKey) (m : KeyCounts)
    → has_key key m ≡ true
    → count_in key (increment_known k m) ≡ one_if (key_eq k key) + count_in key m
unfolding count_in increment_known has_key
count_in-increment_known key k [] h = cc
count_in-increment_known key k ((j, n) ∷ m) there = elim (Bool-cases (key_eq j k)) [
  | inl h ↦ (let same = key_eq-of j k key h in ground (arith, h, same))
  | inr h ↦ (elim (Bool-cases (key_eq j key)) [
    | inl e ↦ (let a = key_eq-apart j k key h e in ground (arith, h, e, a))
    | inr e ↦
        (let rest : has_key key m ≡ true = ground (arith, there, e) in
          let ih = count_in-increment_known key k m rest in ground (arith, h, e, ih))
  ])
]

has_key-increment_known :
    (key k : WithdrawalDailyLimitKey) (m : KeyCounts)
    → has_key key (increment_known k m) ≡ has_key key m
unfolding increment_known has_key
has_key-increment_known key k [] = refl
has_key-increment_known key k ((j, n) ∷ m) =
    let ih = has_key-increment_known key k m in ground (arith, ih)

has_key-increment_key :
    (key k : WithdrawalDailyLimitKey) (m : KeyCounts)
    → has_key key (increment_key k m) ≡ (key_eq k key || has_key key m)
unfolding increment_key has_key
has_key-increment_key key k [] = ground arith
has_key-increment_key key k ((j, n) ∷ m) = elim (Bool-cases (key_eq j k)) [
  | inl h ↦ (let same = key_eq-of j k key h in ground (arith, h, same))
  | inr h ↦ (let ih = has_key-increment_key key k m in ground (arith, h, ih))
]

module _ (key_of : WithdrawalRequest → WithdrawalDailyLimitKey)
    (key : WithdrawalDailyLimitKey) where
  pub count_in-count_requests :
      (requests : List WithdrawalRequest) (counts : KeyCounts)
      → count_in key (count_requests key_of requests counts)
        ≡ count (λ r. key_eq (key_of r) key) requests + count_in key counts
  unfolding count_requests
  count_in-count_requests [] counts = ground arith
  count_in-count_requests (r ∷ rest) counts =
      let ih = count_in-count_requests rest (increment_key (key_of r) counts) in
      let step = count_in-increment_key key (key_of r) counts in ground (arith, ih, step)

  pub has_key-count_requests :
      (requests : List WithdrawalRequest) (counts : KeyCounts)
      → has_key key (count_requests key_of requests counts)
        ≡ (any (λ r. key_eq (key_of r) key) requests || has_key key counts)
  unfolding count_requests
  has_key-count_requests [] counts = refl
  has_key-count_requests (r ∷ rest) counts =
      let ih = has_key-count_requests rest (increment_key (key_of r) counts) in
      let step = has_key-increment_key key (key_of r) counts in ground (arith, ih, step)

module _ (key_of : WithdrawRecord → WithdrawalDailyLimitKey) (key : WithdrawalDailyLimitKey) where
  pub count_in-count_records :
      (records : List WithdrawRecord) (counts : KeyCounts)
      → has_key key counts ≡ true
      → count_in key (count_records key_of records counts)
        ≡ count (λ r. key_eq (key_of r) key) records + count_in key counts
  unfolding count_records
  count_in-count_records [] counts h = ground arith
  count_in-count_records (r ∷ rest) counts h =
      let there = has_key-increment_known key (key_of r) counts ∙ h in
      let ih = count_in-count_records rest (increment_known (key_of r) counts) there in
      let step = count_in-increment_known key (key_of r) counts h in ground (arith, ih, step)

  pub has_key-count_records :
      (records : List WithdrawRecord) (counts : KeyCounts)
      → has_key key (count_records key_of records counts) ≡ has_key key counts
  unfolding count_records
  has_key-count_records [] counts = refl
  has_key-count_records (r ∷ rest) counts =
      has_key-count_records rest (increment_known (key_of r) counts)
      ∙ has_key-increment_known key (key_of r) counts
