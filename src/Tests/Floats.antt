-- ===== src/Tests/Floats.antt =====
-- The victim of an eviction, with whole numbers in place of floats; a handshake.
use iso.Base.{ℕ, ◌≡◌, refl, true, false, List, [], ◌∷◌, ok, arith, ltb}
use iso.Float.{whole}
use iso.Wire.Bytes.{Bytes}
use iso.Policy.{VictimFact, pick_victim}
use iso.Policy.Victim.{IsVictim, pick_victim-IsVictim}
use iso.Handshake.{AuthenticatePayload, encode_authenticate_payload}

abbrev two_idle : List VictimFact
two_idle =
    record { heap_used_bytes = 40; last_used = 3_000_000_000 }
    ∷ record { heap_used_bytes = 10; last_used = 0 }
    ∷ []

lt_asym : (a b : ℕ) → ltb a b ≡ true → ltb b a ≡ false
lt_asym a b h = ground arith

lt_trans : (a b c : ℕ) → ltb a b ≡ false → ltb b c ≡ false → ltb a c ≡ false
lt_trans a b c h k = ground arith

pick_victim-IsVictim_example :
    IsVictim ⦃fl = whole⦄ two_idle 9_000_000_000 (pick_victim ⦃fl = whole⦄ two_idle 9_000_000_000)
pick_victim-IsVictim_example =
    pick_victim-IsVictim ⦃fl = whole⦄ (λ n. Unit {0}) (λ f now. tt) lt_asym
      (λ a b c x y z. lt_trans a b c) two_idle 9_000_000_000

abbrev a_token : Bytes
a_token = 1 ∷ 2 ∷ 3 ∷ 4 ∷ 5 ∷ 6 ∷ 7 ∷ 8 ∷ 9 ∷ 10 ∷ 11 ∷ 12 ∷ 13 ∷ 14 ∷ 15 ∷ 16 ∷ []

abbrev pub a_handshake : AuthenticatePayload
a_handshake = record {
  protocol_version = 1;
  probe = 255 ∷ 15 ∷ 48 ∷ [];
  descriptor_token = a_token;
}

abbrev pub their_handshake : Bytes
their_handshake = 0 ∷ 1 ∷ 0 ∷ 0 ∷ 0 ∷ 3 ∷ 255 ∷ 15 ∷ 48 ∷ 0 ∷ 0 ∷ 0 ∷ 16 ∷ a_token

pub a_handshake-encoded : encode_authenticate_payload a_handshake ≡ ok their_handshake
unfolding encode_authenticate_payload
a_handshake-encoded = refl
