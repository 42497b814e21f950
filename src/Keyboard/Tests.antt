-- ===== src/Keyboard/Tests.antt =====
-- The keyboard driver on concrete kernels and bytes.
use tcb.Base.{
  ◌+◌, ◌-◌, ◌*◌, ◌<◌, ◌≤◌, ◌≡◌, refl, true, false, not, some, ok, ◌==◌, get_elem?, arith,
}
use tcb.Keyboard.Probe.{Kernel, nothing, keycodes_size, key_tables, probe, remove}
use tcb.Keyboard.Probe.Laws.{everything, Balanced, probe-Balanced, probe-remove}
use tcb.Keyboard.Isr.{isr, isr_lem}

abbrev willing : Kernel
willing = record {
  resource = true;
  irq = some 5;
  kzalloc = true;
  allocate_input = true;
  request_region = true;
  ioremap = true;
  request_irq = 0;
  register_input = 0;
}

probe_busy : probe (record willing { register_input = 16 }) nothing ≡ ok (16, nothing)
unfolding probe
probe_busy = refl

probe-willing : probe willing nothing ≡ ok (0, everything)
unfolding probe
probe-willing = refl

probe-Balanced_example :
    Balanced
      (record willing { ioremap = false })
      (probe (record willing { ioremap = false }) nothing)
probe-Balanced_example = probe-Balanced (record willing { ioremap = false })

probe-remove_example : remove everything ≡ ok nothing
probe-remove_example = probe-remove willing everything probe-willing

isr_lem_example :
    (0x9e ≡ (isr 0x9e).code + 128 * (1 - (isr 0x9e).value))
    × ((isr 0x9e).value ≤ 1)
    × ((isr 0x9e).code < keycodes_size)
    × (get_elem? key_tables.keycodes (isr 0x9e).code ≡ some (isr 0x9e).code)
    × (get_elem? key_tables.keybit (isr 0x9e).code ≡ some (not ((isr 0x9e).code == 0)))
isr_lem_example = isr_lem 0x9e (omega arith)
