-- ===== src/Cre/Commitments/Counted.antt =====
-- The recipients that packages/cre/src/evidence.ts counts in a payroll.
use bufi.Base.{ℕ, suc, ◌+◌, ◌≡◌, refl, arith}
use bufi.Cre.Checked.{Gives, gives, refuses, >>=-Gives, after-Gives}
use bufi.Cre.Json.{Value, array, object, Items, no_item, item, Fields, no_field, field}
use bufi.Cre.Commitments.Payroll.{
  count_recipients, count_group, count_value, count_fields, count_items, check_recipient,
}

abbrev pub items_length : Items → ℕ
items_length no_item = 0
items_length (item v xs) = suc (items_length xs)

abbrev group_length : Value → ℕ
group_length (array xs) = items_length xs
group_length _ = 0

abbrev pub groups_total : Fields → ℕ
groups_total no_field = 0
groups_total (field key group rest) = group_length group + groups_total rest

abbrev items_total : Items → ℕ
items_total no_item = 0
items_total (item group rest) = group_length group + items_total rest

-- The number of recipients in all groups.
abbrev pub recipient_total : Value → ℕ
recipient_total (object groups) = groups_total groups
recipient_total (array groups) = items_total groups
recipient_total _ = 0

count_group-Gives :
    (counted total : ℕ) (xs : Items)
    → counted + items_length xs ≡ total
    → Gives (λ n. n ≡ total) (count_group counted xs)
unfolding count_group
count_group-Gives counted total no_item h = gives (omega arith)
count_group-Gives counted total (item recipient rest) h =
    after-Gives (check_recipient recipient)
      λ _. count_group-Gives (counted + 1) total rest (omega arith)

count_value-Gives :
    (counted : ℕ) (v : Value) → Gives (λ n. n ≡ counted + group_length v) (count_value counted v)
unfolding count_value
count_value-Gives counted (array xs) = count_group-Gives counted _ xs refl
count_value-Gives counted _ = refuses

count_fields-Gives :
    (counted total : ℕ) (fs : Fields)
    → counted + groups_total fs ≡ total
    → Gives (λ n. n ≡ total) (count_fields counted fs)
unfolding count_fields
count_fields-Gives counted total no_field h = gives (omega arith)
count_fields-Gives counted total (field key group rest) h =
    >>=-Gives (count_value-Gives counted group) λ n e. count_fields-Gives n total rest (omega arith)

count_items-Gives :
    (counted total : ℕ) (xs : Items)
    → counted + items_total xs ≡ total
    → Gives (λ n. n ≡ total) (count_items counted xs)
unfolding count_items
count_items-Gives counted total no_item h = gives (omega arith)
count_items-Gives counted total (item group rest) h =
    >>=-Gives (count_value-Gives counted group) λ n e. count_items-Gives n total rest (omega arith)

pub count_recipients-Gives : (v : Value) → Gives (λ n. n ≡ recipient_total v) (count_recipients v)
unfolding count_recipients
count_recipients-Gives (object groups) = count_fields-Gives 0 _ groups (omega arith)
count_recipients-Gives (array groups) = count_items-Gives 0 _ groups (omega arith)
count_recipients-Gives _ = refuses
