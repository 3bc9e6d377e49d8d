-- ===== src/Nvs.antt =====
-- The key-value store of ESP-IDF (nvs.h, nvs_flash.h), which is not code of this repository: one
-- partition with one namespace, as the firmware's calls see it. A reading of the same content gives the
-- same answer; a write may fail or be cut off, and says so.
pub mod Memory
use m5authenticator.Prelude.{ℕ, ◌≡◌, ◌⊎◌, ◌≢◌, Bool, true, false, length, Bytes}

-- The codes that the firmware tells apart.
pub data EspErr : Type 0 where
  esp_ok nvs_not_found esp_not_found invalid_arg : EspErr
  no_free_pages new_version_found other_error : EspErr

abbrev pub is_esp_ok : EspErr → Bool
is_esp_ok esp_ok = true
is_esp_ok _ = false

abbrev pub is_nvs_not_found : EspErr → Bool
is_nvs_not_found nvs_not_found = true
is_nvs_not_found _ = false

abbrev pub is_esp_not_found : EspErr → Bool
is_esp_not_found esp_not_found = true
is_esp_not_found _ = false

pub data OpenMode : Type 0 where
  readonly readwrite : OpenMode

-- `get_blob_size` is `nvs_get_blob` without a buffer.
pub record Nvs (Key S : Type 0) : Type 0 where
  pub init : S → EspErr × S
  pub erase_partition : S → EspErr × S
  pub open_namespace : OpenMode → S → EspErr × S
  pub get_u8 : Key → S → EspErr × ℕ
  pub get_u32 : Key → S → EspErr × ℕ
  pub get_blob_size : Key → S → EspErr × ℕ
  pub get_blob : Key → S → EspErr × Bytes
  pub set_u8 : Key → ℕ → S → EspErr × S
  pub set_u32 : Key → ℕ → S → EspErr × S
  pub set_blob : Key → Bytes → S → EspErr × S
  pub erase_key : Key → S → EspErr × S
  pub erase_namespace : S → EspErr × S
  pub commit : S → EspErr × S

module _ {Key S : Type 0} (nvs : Nvs Key S) where
  -- One key reads the same in two stores.
  pub record SameAt (s t : S) (k : Key) : Type 0 where
    pub u8 : nvs.get_u8 k t ≡ nvs.get_u8 k s
    pub u32 : nvs.get_u32 k t ≡ nvs.get_u32 k s
    pub size : nvs.get_blob_size k t ≡ nvs.get_blob_size k s
    pub blob : nvs.get_blob k t ≡ nvs.get_blob k s

  -- What the library documents: to open, initialise or commit changes no value, a write changes no
  -- other key, a write that is reported done is read back, and one that is not leaves the old value or
  -- the new one.
  pub record NvsLaws : Type 0 where
    pub init_keeps : (s : S) (k : Key) → SameAt s (nvs.init s).1 k
    pub open_keeps : (mode : OpenMode) (s : S) (k : Key) → SameAt s (nvs.open_namespace mode s).1 k
    pub commit_keeps : (s : S) (k : Key) → SameAt s (nvs.commit s).1 k
    pub set_u8_keeps : (k k' : Key) (v : ℕ) (s : S) → k' ≢ k → SameAt s (nvs.set_u8 k v s).1 k'
    pub set_u8_done :
        (k : Key) (v : ℕ) (s : S)
        → (nvs.set_u8 k v s).0 ≡ esp_ok
        → nvs.get_u8 k (nvs.set_u8 k v s).1 ≡ (esp_ok, v)
    pub set_u8_atomic :
        (k : Key) (v : ℕ) (s : S)
        → SameAt s (nvs.set_u8 k v s).1 k ⊎ (nvs.get_u8 k (nvs.set_u8 k v s).1 ≡ (esp_ok, v))
    pub set_blob_keeps :
        (k k' : Key) (v : Bytes) (s : S) → k' ≢ k → SameAt s (nvs.set_blob k v s).1 k'
    pub set_blob_done :
        (k : Key) (v : Bytes) (s : S)
        → (nvs.set_blob k v s).0 ≡ esp_ok
        → (nvs.get_blob_size k (nvs.set_blob k v s).1 ≡ (esp_ok, length v))
          × (nvs.get_blob k (nvs.set_blob k v s).1 ≡ (esp_ok, v))
