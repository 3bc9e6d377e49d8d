-- ===== src/Lib.antt =====
-- Verification of the M5Authenticator firmware, a TOTP authenticator on an ESP32-S3 stick.
--
-- The firmware keeps the credentials in an encrypted Vault. A browser holds the keys: it installs
-- the Vault, unlocks it and replaces it by newer generations over USB. The runtime keeps the
-- master key while the Vault is unlocked, decrypts it for each use and locks again, also by
-- itself after some days. What the browser asks for is approved at the Device's button. A code
-- is computed from a credential and from the time of a clock that the browser or the network sets.
--
-- The files and the sources that they model:
-- - Vault: firmware/components/m5auth_vault. Vault/Utf8, Vault/Encode and Vault/Decode are
--   vault_format.cpp: is_valid_utf8, encode_plaintext, decode_plaintext and their helpers, a reader
--   being the bytes that are left. Vault/Crypto is vault_crypto.cpp with the builders of the
--   authenticated data; AES-256-GCM is a parameter.
-- - VaultRuntime: firmware/components/m5auth_vault_runtime. The record Runtime has the fields of the
--   class; VaultRuntime/Operations and VaultRuntime/Access have its methods, as functions of the
--   runtime and of what the medium keeps. The persistence is the interface of runtime.hpp over any
--   medium. VaultRuntime/Steps runs any sequence of calls.
-- - Nvs: the key-value store of ESP-IDF as the firmware's calls see it, a parameter; Nvs/Memory is one
--   in memory.
-- - VaultStore: firmware/components/m5auth_vault_runtime/nvs_persistence.cpp. VaultStore is the framing
--   of an envelope, VaultStore/Slots the class NvsPersistence, as functions of the key-value store, with the meaning
--   of the store's answers in Slots/Answers;
--   VaultStore/Pointer, VaultStore/Atomic and VaultStore/Replace are the replacement through two slots;
--   VaultStore/Compatible is the class CompatibleNvsPersistence.
-- - Registration: firmware/components/m5auth_registration. The record Store has the fields of the class;
--   Registration/Operations has its methods.
-- - Restart: the runtime over the two slots.
-- - Presence: firmware/components/m5auth_session/user_presence.cpp. UserPresenceGate and, in
--   Presence/Quarantine, PresenceGestureQuarantine.
-- - Session: firmware/components/m5auth_session. Session is the transcript of session_protocol_v2.cpp,
--   Session/Base64 its base64url, Session/Device the class DeviceSession of session_crypto.cpp and
--   Session/Attempts the class AttemptCoordinator. The cryptography is a parameter; the object with the
--   button is the interface PresenceBinding, over any state.
-- - Ui: firmware/components/m5auth_device_sticks3/ui_model.cpp, the class UiModel; Ui/Steps runs any of its
--   calls.
-- - Unlock: the coordinator over the display. UiModel implements PresenceBinding in ui_model.hpp.
--   Unlock/Honest adds the browser's side of web/src/security/session-flow-v2.ts, of which
--   Session/Attempts/Honest has the sealing.
-- - Totp: firmware/components/m5auth_totp/totp_core.cpp. Totp/Base32 is decode_base32, Totp the
--   generation of a code; the HMAC is a parameter. Totp/Base32/Alphabet is the alphabet of RFC 4648.
-- - Time: firmware/components/m5auth_time. Time is trusted_time.cpp, the class TrustedClock, and Time/Service
--   is canonical_time_service.cpp, the class TimeService over the Wi-Fi and SNTP calls of ESP-IDF, which are
--   a parameter; Time/Service/Schedule has the methods that the firmware calls, and Time/Service/Driver what
--   those of Wi-Fi do to the driver and to the credentials it is given.
-- - Provisioning: firmware/components/m5auth_provisioning. Provisioning and Provisioning/Recovery are the
--   headers factory_reset_authorization.hpp and recovery_reset.hpp. Provisioning/Binding is
--   session_binding_v2.cpp with CanonicalBindingSource, Provisioning/Sink the class CanonicalVmkSink of
--   canonical_v2_state.cpp, Provisioning/Handler the class StagedSessionV2Handler of
--   session_protocol_v2.cpp, with its readers in Handler/Request and handle_line in Handler/Lines; Sink/History and Handler/Run have any of their calls. cJSON is a parameter,
--   and a response is its data. Provisioning/Opening is the handler over the sources of the firmware.
-- - LabelScroll: label_scroll_state.hpp of firmware/components/m5auth_device_sticks3. The two numbers
--   that its callers keep are a record; LabelScroll/Exact has the formula for the offset.
-- - Prelude: names and lemmas that the parts share, and the comparison in constant time.
--
-- A number is a natural number; where the C++ type has a width, the bound is a hypothesis or the
-- value is cut where the source cuts it. A byte string is a list of numbers. A function that
-- returns false and leaves its output alone gives none. There are two fuels: that of is_valid_utf8 is the
-- length of the text, of which every character takes at least one; that of wait_for_ip is 61, one more
-- than the polls of 100 ms that the timeout of 6,000 ms allows.
--
-- Not modelled: the wiping of temporary buffers and of requests, null pointers, the mutexes, and empty
-- consumers; the libraries for cryptography, JSON, NVS, the display and Wi-Fi; the parts around
-- them (the other JSON messages, storage of Schema 1, device drivers, start-up).
pub mod Prelude
pub mod Time
pub mod Presence
pub mod Totp
pub mod Vault
pub mod VaultRuntime
pub mod Provisioning
pub mod LabelScroll
pub mod Nvs
pub mod VaultStore
pub mod Registration
pub mod Session
pub mod Ui
pub mod Unlock
pub mod Restart
