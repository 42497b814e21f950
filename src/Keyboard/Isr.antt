-- ===== src/Keyboard/Isr.antt =====
-- `opencores_kbd_isr`: one byte of the controller becomes one key event.
use Prim.Native.Nat.{bit_and}
use tcb.Base.Tables.{holds_under, holds_under-at}
use tcb.Keyboard.Probe.{keycodes_size, key_tables}
use tcb.Base.{
  ◌≤◌, not, some, none, get_elem?, ◌&&◌, ◌-◌, ℕ, ◌+◌, ◌*◌, ◌<◌, ◌%◌, ◌≡◌, refl, Bool, true, false,
  ◌==◌, ltb, if◌then◌else◌, arith,
}

-- What `input_report_key` is told: the key code, and 1 for down or 0 for up.
pub record KeyEvent : Type 0 where
  pub code : ℕ
  pub value : ℕ

-- `opencores_kbd_isr`, of the byte that `readb` gives.
unfoldable pub isr : ℕ → KeyEvent
isr c = record { code = bit_and c 0x7f; value = if bit_and c 0x80 == 0 then 1 else 0 }

isr_test : ℕ → Bool
isr_test c = (isr c).code == c % 128 && (isr c).value == (if ltb c 128 then 1 else 0)

isr_table : holds_under isr_test 256 ≡ true
unfolding holds_under isr_test isr
isr_table = refl

isr_fields :
    (c : ℕ) → c < 256 → ((isr c).code ≡ c % 128) × ((isr c).value ≡ (if ltb c 128 then 1 else 0))
unfolding isr_test
isr_fields c h = let t = holds_under-at isr_test 256 c isr_table h in ground arith

-- The tables that `probe` fills, at one key.
key_test : ℕ → Bool
key_test i =
    elim (get_elem? key_tables.keycodes i) [ none ↦ false | some code ↦ code == i ]
    && elim (get_elem? key_tables.keybit i) [
      | none ↦ false
      | some bit ↦ if i == 0 then not bit else bit
    ]

key_table : holds_under key_test 128 ≡ true
unfolding holds_under key_test key_tables
key_table = refl

key_fields :
    (i : ℕ)
    → i < 128
    → (get_elem? key_tables.keycodes i ≡ some i)
      × (get_elem? key_tables.keybit i ≡ some (not (i == 0)))
unfolding key_test
key_fields i h = let t = holds_under-at key_test 128 i key_table h in ground arith

-- Every byte of the controller is one key going down (below 128) or up: the event tells the byte
-- apart from every other, and its code is one for which `probe` set up the key code of that number,
-- and announced the key unless it is the reserved key 0.
pub isr_lem :
    (c : ℕ)
    → c < 256
    → (c ≡ (isr c).code + 128 * (1 - (isr c).value))
      × ((isr c).value ≤ 1)
      × ((isr c).code < keycodes_size)
      × (get_elem? key_tables.keycodes (isr c).code ≡ some (isr c).code)
      × (get_elem? key_tables.keybit (isr c).code ≡ some (not ((isr c).code == 0)))
isr_lem c h =
    let (code, value) = isr_fields c h in
    let (first, second) = key_fields (isr c).code (omega arith) in
    (ground arith, ground arith, omega arith, first, second)
