-- ===== src/Client/Session/Last.antt =====
-- The last byte of a text, as src/vme/vantiq_client.c, src/vme/config.c and src/vme/vme.c look for a
-- slash.
use vantiq_sdk_micro.Base.{ℕ, ◌≡◌, refl, [], ◌∷◌, Bytes, ◌==◌, ends_in}
use vantiq_sdk_micro.Memory.{World, ok}
use vantiq_sdk_micro.Client.Session.{last_char}

pub last_char_lem :
    (c : ℕ) (s : Bytes) (w : World)
    → (d : ℕ) × (last_char (c ∷ s) w ≡ ok d w) × ((d == b'/') ≡ ends_in b'/' (c ∷ s))
unfolding last_char
last_char_lem c [] w = (c, refl, refl)
last_char_lem c (d ∷ s) w = last_char_lem d s w
