-- ===== src/Nvs/Memory.antt =====
-- A key-value store in memory that satisfies the laws, so that they can hold.
use m5authenticator.Nvs.{Nvs, NvsLaws, SameAt, EspErr, esp_ok, nvs_not_found}
use m5authenticator.Prelude.{
  ℕ, ◌≡◌, ◌≢◌, refl, length, Bytes, Option, none, some, ◌==◌, if◌then◌else◌, arith, ==_iff, inr, [],
  ap,
}

pub record Cell : Type 0 where
  pub u8 : Option ℕ
  pub u32 : Option ℕ
  pub blob : Option Bytes

abbrev pub blank : Cell
blank = record { u8 = none; u32 = none; blob = none }

-- A cell for the index of each key.
abbrev pub Memory : Type 0
Memory = ℕ → Cell

abbrev pub put : ℕ → Cell → Memory → Memory
put i c s j = if j == i then c else s j

abbrev number : Option ℕ → EspErr × ℕ
number none = (nvs_not_found, 0)
number (some n) = (esp_ok, n)

abbrev size : Option Bytes → EspErr × ℕ
size none = (nvs_not_found, 0)
size (some v) = (esp_ok, length v)

abbrev bytes : Option Bytes → EspErr × Bytes
bytes none = (nvs_not_found, [])
bytes (some v) = (esp_ok, v)

module _ {Key : Type 0} (index : Key → ℕ) where
  abbrev pub memory : Nvs Key Memory
  memory = record {
    init = λ s. (esp_ok, s);
    erase_partition = λ s. (esp_ok, λ i. blank);
    open_namespace = λ mode s. (esp_ok, s);
    get_u8 = λ k s. number (s (index k)).u8;
    get_u32 = λ k s. number (s (index k)).u32;
    get_blob_size = λ k s. size (s (index k)).blob;
    get_blob = λ k s. bytes (s (index k)).blob;
    set_u8 = λ k v s. (esp_ok, put (index k) (record blank { u8 = some v }) s);
    set_u32 = λ k v s. (esp_ok, put (index k) (record blank { u32 = some v }) s);
    set_blob = λ k v s. (esp_ok, put (index k) (record blank { blob = some v }) s);
    erase_key = λ k s. (esp_ok, put (index k) blank s);
    erase_namespace = λ s. (esp_ok, λ i. blank);
    commit = λ s. (esp_ok, s);
  }

  put_same : (i : ℕ) (c : Cell) (s : Memory) → put i c s i ≡ c
  put_same i c s = ground (arith, ==_iff i i)

  module _ (injective : (k k' : Key) → index k ≡ index k' → k ≡ k') where
    put_other :
        (k k' : Key) (c : Cell) (s : Memory) → k' ≢ k → put (index k) c s (index k') ≡ s (index k')
    put_other k k' c s ne = ground (arith, ==_iff (index k') (index k), injective k' k)

    put-SameAt :
        (k k' : Key) (c : Cell) (s : Memory) → k' ≢ k → SameAt memory s (put (index k) c s) k'
    put-SameAt k k' c s ne =
        let e = put_other k k' c s ne in
        record {
          u8 = ap (λ (c : Cell). number c.u8) e;
          u32 = ap (λ (c : Cell). number c.u32) e;
          size = ap (λ (c : Cell). size c.blob) e;
          blob = ap (λ (c : Cell). bytes c.blob) e;
        }

    same : (s : Memory) (k : Key) → SameAt memory s s k
    same s k = record { u8 = refl; u32 = refl; size = refl; blob = refl }

    pub memory-Laws : NvsLaws memory
    memory-Laws = record {
      init_keeps = same;
      open_keeps = λ mode. same;
      commit_keeps = same;
      set_u8_keeps = λ k k' v s ne. put-SameAt k k' _ s ne;
      set_u8_done = λ k v s h.
          ap (λ (c : Cell). number c.u8) (put_same (index k) (record blank { u8 = some v }) s);
      set_u8_atomic = λ k v s.
          inr
            (ap (λ (c : Cell). number c.u8) (put_same (index k) (record blank { u8 = some v }) s));
      set_blob_keeps = λ k k' v s ne. put-SameAt k k' _ s ne;
      set_blob_done = λ k v s h. (
        ap (λ (c : Cell). size c.blob) (put_same (index k) (record blank { blob = some v }) s),
        ap (λ (c : Cell). bytes c.blob) (put_same (index k) (record blank { blob = some v }) s),
      );
    }
