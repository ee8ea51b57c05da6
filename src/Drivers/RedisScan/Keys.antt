-- ===== src/Drivers/RedisScan/Keys.antt =====
-- What the accumulator of src/drivers/redis_browser.rs keeps of the keys of a scan.
use dbotter.Prelude.{
  ℕ, ◌+◌, ◌≤◌, ◌≡◌, refl, sym, ap, ◌∙◌, inl, inr, false, List, [], ◌∷◌, ◌++◌, length, arith,
  Bool-cases, ltb, All, subst,
}
use dbotter.Model.Requests.{RedisKeyFilter, max_redis_key_bytes}
use dbotter.Model.Pages.{RedisKeyEntry, RedisKeyPage}
use dbotter.Drivers.RedisScan.{
  RedisScanAccumulator, has_seen, is_full, apply_key, apply_keys, apply_page, add_key, new_scan,
}

-- The number of the raw keys, the sum of their bytes, and that none comes twice.
abbrev pub total_bytes : List (List ℕ) → ℕ
total_bytes [] = 0
total_bytes (raw ∷ raws) = length raw + total_bytes raws

abbrev pub AreDistinct : List (List ℕ) → Type 0
AreDistinct [] = Unit
AreDistinct (raw ∷ raws) = (has_seen raws raw ≡ false) × AreDistinct raws

-- The raw keys, the last one first.
abbrev pub raw_keys : List (List ℕ) → List RedisKeyEntry → List (List ℕ)
raw_keys raws [] = raws
raw_keys raws (key ∷ keys) = raw_keys (key.id ∷ raws) keys

pub record IsWithinLimits (s : RedisScanAccumulator) : Type 0 where
  pub same : s.seen ≡ raw_keys [] s.keys
  pub distinct : AreDistinct s.seen
  pub small : All (λ raw. length raw ≤ max_redis_key_bytes) s.seen
  pub few : length s.keys ≤ 10000
  pub bytes : s.retained_bytes ≡ total_bytes s.seen
  pub few_bytes : s.retained_bytes ≤ 8388608

raw_keys-snoc :
    (raws : List (List ℕ)) (keys : List RedisKeyEntry) (key : RedisKeyEntry)
    → raw_keys raws (keys ++ key ∷ []) ≡ key.id ∷ raw_keys raws keys
raw_keys-snoc raws [] key = refl
raw_keys-snoc raws (k ∷ ks) key = raw_keys-snoc (k.id ∷ raws) ks key

length-snoc :
    (keys : List RedisKeyEntry) (key : RedisKeyEntry) → length (keys ++ key ∷ []) ≡ length keys + 1
length-snoc [] key = refl
length-snoc (k ∷ ks) key = ground (arith, length-snoc ks key)

add_key-IsWithinLimits :
    (s : RedisScanAccumulator) (key : RedisKeyEntry)
    → IsWithinLimits s
    → length key.id ≤ max_redis_key_bytes
    → has_seen s.seen key.id ≡ false
    → is_full s key.id ≡ false
    → IsWithinLimits (add_key s key)
add_key-IsWithinLimits s key h short new room = record {
  same = ap (λ raws. key.id ∷ raws) h.same ∙ sym (raw_keys-snoc [] s.keys key);
  distinct = (new, h.distinct);
  small = (short, h.small);
  few = ground (arith, length-snoc s.keys key);
  bytes = ground (arith, h.bytes, h.few_bytes);
  few_bytes = ground arith;
}

-- Nothing that is kept of the keys has changed.
pub kept-IsWithinLimits :
    (s t : RedisScanAccumulator)
    → t.seen ≡ s.seen
    → t.keys ≡ s.keys
    → t.retained_bytes ≡ s.retained_bytes
    → IsWithinLimits s
    → IsWithinLimits t
kept-IsWithinLimits s t seen keys bytes h = record {
  same = seen ∙ h.same ∙ ap (raw_keys []) (sym keys);
  distinct = subst AreDistinct (sym seen) h.distinct;
  small = subst (All (λ raw. length raw ≤ max_redis_key_bytes)) (sym seen) h.small;
  few = subst (λ l. length l ≤ 10000) (sym keys) h.few;
  bytes = bytes ∙ h.bytes ∙ ap total_bytes (sym seen);
  few_bytes = subst (λ n. n ≤ 8388608) (sym bytes) h.few_bytes;
}

pub new_scan-IsWithinLimits : (filter : RedisKeyFilter) → IsWithinLimits (new_scan filter)
new_scan-IsWithinLimits filter = record {
  same = refl;
  distinct = tt;
  small = tt;
  few = omega arith;
  bytes = refl;
  few_bytes = omega arith;
}

apply_key-IsWithinLimits :
    (s : RedisScanAccumulator) (key : RedisKeyEntry)
    → IsWithinLimits s
    → IsWithinLimits (apply_key s key)
unfolding apply_key
apply_key-IsWithinLimits s key h = elim (Bool-cases (ltb max_redis_key_bytes (length key.id))) [
  | inl long ↦ rw long (kept-IsWithinLimits s _ refl refl refl h)
  | inr short ↦ elim (Bool-cases (has_seen s.seen key.id)) [
    | inl again ↦ rw short (rw again h)
    | inr new ↦ elim (Bool-cases (is_full s key.id)) [
      | inl full ↦ rw short (rw new (rw full (kept-IsWithinLimits s _ refl refl refl h)))
      | inr room ↦
          rw short (rw new (rw room (add_key-IsWithinLimits s key h (ground arith) new room)))
    ]
  ]
]

apply_keys-IsWithinLimits :
    (s : RedisScanAccumulator) (keys : List RedisKeyEntry)
    → IsWithinLimits s
    → IsWithinLimits (apply_keys s keys)
unfolding apply_keys
apply_keys-IsWithinLimits s [] h = h
apply_keys-IsWithinLimits s (key ∷ keys) h =
    apply_keys-IsWithinLimits (apply_key s key) keys (apply_key-IsWithinLimits s key h)

-- A page keeps the limits, whatever keys it brings.
pub apply_page-IsWithinLimits :
    (s : RedisScanAccumulator) (page : RedisKeyPage)
    → IsWithinLimits s
    → IsWithinLimits (apply_page s page)
unfolding apply_page
apply_page-IsWithinLimits s page h =
    apply_keys-IsWithinLimits _ page.keys (kept-IsWithinLimits s _ refl refl refl h)
