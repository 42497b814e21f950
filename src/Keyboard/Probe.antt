-- ===== src/Keyboard/Probe.antt =====
-- `opencores_kbd_probe` and `opencores_kbd_remove`.
pub mod Laws
use tcb.Base.{
  ℕ, zero, suc, ◌+◌, Bool, true, false, ◌&&◌, not, Option, none, some, List, [], ◌∷◌, ◌==◌,
  if◌then◌else◌, set, replicate, Res, ok, fault, ◌>>=◌, ◌>>◌, within,
}

-- What the driver has taken from the kernel and not given back.
pub record Held : Type 0 where
  pub kbd : Bool
  pub input : Bool
  pub region : Bool
  pub mapping : Bool
  pub irq : Bool
  pub registered : Bool

abbrev pub nothing : Held
nothing = record {
  kbd = false;
  input = false;
  region = false;
  mapping = false;
  irq = false;
  registered = false;
}

-- What the kernel answers. An error is the number that the call returns, without its sign; 0 is
-- success. `irq` is `none` for a negative answer, and a pointer is whether it is not null.
pub record Kernel : Type 0 where
  pub resource : Bool
  pub irq : Option ℕ
  pub kzalloc : Bool
  pub allocate_input : Bool
  pub request_region : Bool
  pub ioremap : Bool
  pub request_irq : ℕ
  pub register_input : ℕ

-- `ARRAY_SIZE(opencores_kbd->keycodes)`
abbrev pub keycodes_size : ℕ
keycodes_size = 128

abbrev pub einval : ℕ
einval = 22

abbrev pub enomem : ℕ
enomem = 12

abbrev pub ebusy : ℕ
ebusy = 16

abbrev pub enxio : ℕ
enxio = 6

-- The tables that `probe` fills: the key codes, and the key bits of the input device.
pub record Keys : Type 0 where
  pub keycodes : List ℕ
  pub keybit : List Bool

-- The loop that fills them, from `i` on, with `left` rounds to go.
unfoldable pub fill_keys : ℕ → ℕ → Keys → Keys
fill_keys zero i k = k
fill_keys (suc left) i k =
    fill_keys left (suc i) (record { keycodes = set k.keycodes i i; keybit = set k.keybit i true })

-- The tables of a fresh device after the loop and `__clear_bit(KEY_RESERVED, ...)`.
unfoldable pub key_tables : Keys
unfolding fill_keys
key_tables =
    let k =
      fill_keys keycodes_size 0
        (record { keycodes = replicate keycodes_size 0; keybit = replicate keycodes_size false }) in
    record k { keybit = set k.keybit 0 false }

-- `input_free_device` and `kfree` take a null pointer; to free anything twice is undefined.
abbrev pub free_kbd : Bool → Held → Res Held
free_kbd pointer h = if pointer then (do within h.kbd; ok (record h { kbd = false })) else ok h

abbrev pub free_input : Bool → Held → Res Held
free_input pointer h =
    if pointer
    then (do within (h.input && not h.registered); ok (record h { input = false }))
    else ok h

abbrev pub release_region : Held → Res Held
release_region h = do within h.region; ok (record h { region = false })

abbrev pub iounmap : Held → Res Held
iounmap h = do within (h.mapping && not h.irq); ok (record h { mapping = false })

abbrev pub free_irq : Held → Res Held
free_irq h = do within h.irq; ok (record h { irq = false })

-- The labels at the end of `opencores_kbd_probe`; each runs on into the next.
unfoldable pub err_free_mem : Kernel → ℕ → Held → Res (ℕ × Held)
err_free_mem k error h = do
  h1 ← free_input k.allocate_input h
  h2 ← free_kbd k.kzalloc h1
  ok (error, h2)

unfoldable pub err_rel_mem : Kernel → ℕ → Held → Res (ℕ × Held)
unfolding err_free_mem
err_rel_mem k error h = do h1 ← release_region h; err_free_mem k error h1

unfoldable pub err_unmap_mem : Kernel → ℕ → Held → Res (ℕ × Held)
unfolding err_rel_mem
err_unmap_mem k error h = do h1 ← iounmap h; err_rel_mem k error h1

unfoldable pub err_free_irq : Kernel → ℕ → Held → Res (ℕ × Held)
unfolding err_unmap_mem
err_free_irq k error h = do h1 ← free_irq h; err_unmap_mem k error h1

-- `opencores_kbd_probe`: the error that it returns, and what the driver then holds.
unfoldable pub probe : Kernel → Held → Res (ℕ × Held)
unfolding err_free_irq
probe k h = if not k.resource then ok (einval, h) else elim k.irq [
  | none ↦ ok (einval, h)
  | some irq ↦
      let h1 = record h { kbd = k.kzalloc; input = k.allocate_input } in
      let h2 = record h1 { region = true } in
      let h3 = record h2 { mapping = true } in
      let h4 = record h3 { irq = true } in
      if not (k.kzalloc && k.allocate_input)
      then err_free_mem k enomem h1
      else if not k.request_region
      then err_free_mem k ebusy h1
      else if not k.ioremap
      then err_rel_mem k enxio h2
      else if not (k.request_irq == 0)
      then err_unmap_mem k k.request_irq h3
      else if not (k.register_input == 0)
      then err_free_irq k k.register_input h4
      else ok (0, record h4 { registered = true })
]

-- `opencores_kbd_remove`. `input_unregister_device` drops the device with its registration.
unfoldable pub remove : Held → Res Held
remove h = do
  h1 ← free_irq h
  h2 ← iounmap h1
  h3 ← release_region h2
  within h3.registered
  free_kbd true (record h3 { registered = false; input = false })
