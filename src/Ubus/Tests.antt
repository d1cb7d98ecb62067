-- ===== src/Ubus/Tests.antt =====
-- Registrations of concrete peripherals.
use ceda_cemu.Base.{ℕ, ◌+◌, ◌≡◌, refl, true, some, [], ◌∷◌, arith}
use ceda_cemu.Ubus.{IoRead, IoWrite, is_free, ubus_register, ubus_io_in, ubus_io_out}
use ceda_cemu.Ubus.Slots.{Inv}
use ceda_cemu.Ubus.Routing.{Registration, register_all, registered_answers}

-- A port that reads as its address and counts the writes.
abbrev echo : IoRead ℕ
echo address n = (n, address)

abbrev counter : IoWrite ℕ
counter address value n = n + 1

abbrev card : ℕ → ℕ → Registration ℕ
card base top = record { base = base; top = top; read = some echo; write = some counter }

none-Inv : Inv {W = ℕ} []
none-Inv = record { few = omega arith; ranges = tt; apart = tt }

accepted : (ubus_register {W = ℕ} [] 0x40 0x48 (some echo) (some counter)).1 ≡ true
unfolding ubus_register is_free
accepted = refl

registered_answers_example :
    (ubus_io_in
        (register_all
          (ubus_register {W = ℕ} [] 0x40 0x48 (some echo) (some counter)).0
          (card 0x44 0x50 ∷ []))
        0x45
        7
      ≡ (7, 5))
    × (ubus_io_out
          (register_all
            (ubus_register {W = ℕ} [] 0x40 0x48 (some echo) (some counter)).0
            (card 0x44 0x50 ∷ []))
          0x45
          1
          7
        ≡ 8)
registered_answers_example =
    registered_answers [] (card 0x40 0x48) (card 0x44 0x50 ∷ []) echo counter 0x45 1 7 none-Inv refl
      refl accepted (omega arith) (omega arith)
