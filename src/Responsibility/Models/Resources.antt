-- ===== src/Responsibility/Models/Resources.antt =====
-- `ResourceVector`. Its validator refuses negative values, so they are naturals; the domain quota is the
-- list of a dict's entries.
use portable_runtime.Base.{
  ℕ, ◌+◌, ◌-◌, String, Bool, false, not, ◌||◌, List, [], ◌∷◌, ◌++◌, ◌==◌, all, elem, leb, map, keep,
  if◌then◌else◌,
}

abbrev pub Quota : Type 0
Quota = List (String × ℕ)

-- `quota.get(key, 0)`
unfoldable pub quota_of : String → Quota → ℕ
quota_of key [] = 0
quota_of key ((k, v) ∷ q) = if k == key then v else quota_of key q

pub record ResourceVector : Type 0 where
  pub compute_units : ℕ
  pub api_calls : ℕ
  pub money_minor : ℕ
  pub human_attention_units : ℕ
  pub concurrency_slots : ℕ
  pub domain_quota : Quota

abbrev pub no_resources : ResourceVector
no_resources = record {
  compute_units = 0;
  api_calls = 0;
  money_minor = 0;
  human_attention_units = 0;
  concurrency_slots = 0;
  domain_quota = [];
}

unfoldable pub fits_within : ResourceVector → ResourceVector → Bool
fits_within a b =
    if not (leb a.compute_units b.compute_units)
      || not (leb a.api_calls b.api_calls)
      || not (leb a.money_minor b.money_minor)
      || not (leb a.human_attention_units b.human_attention_units)
      || not (leb a.concurrency_slots b.concurrency_slots)
    then false
    else all (λ e. leb e.1 (quota_of e.0 b.domain_quota)) a.domain_quota

abbrev pub keys : Quota → List String
keys = map (λ e. e.0)

-- The entries of the sums over the keys of both, those of the first before the new ones of the second.
abbrev pub plus_quota : Quota → Quota → Quota
plus_quota a b =
    map (λ e. (e.0, quota_of e.0 a + quota_of e.0 b)) (a ++ keep (λ e. not (elem e.0 (keys a))) b)

unfoldable pub plus : ResourceVector → ResourceVector → ResourceVector
plus a b = record {
  compute_units = a.compute_units + b.compute_units;
  api_calls = a.api_calls + b.api_calls;
  money_minor = a.money_minor + b.money_minor;
  human_attention_units = a.human_attention_units + b.human_attention_units;
  concurrency_slots = a.concurrency_slots + b.concurrency_slots;
  domain_quota = plus_quota a.domain_quota b.domain_quota;
}

-- What a pool of the capacity has left beside what is used: `max(0, capacity - used)` in each entry.
unfoldable pub left_of : ResourceVector → ResourceVector → ResourceVector
left_of capacity used = record {
  compute_units = capacity.compute_units - used.compute_units;
  api_calls = capacity.api_calls - used.api_calls;
  money_minor = capacity.money_minor - used.money_minor;
  human_attention_units = capacity.human_attention_units - used.human_attention_units;
  concurrency_slots = capacity.concurrency_slots - used.concurrency_slots;
  domain_quota = map (λ e. (e.0, e.1 - quota_of e.0 used.domain_quota)) capacity.domain_quota;
}
