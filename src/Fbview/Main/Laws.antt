-- ===== src/Fbview/Main/Laws.antt =====
-- What `main` leaves behind an error.
use tcb.Base.{
  ℕ, zero, suc, ◌<◌, ◌≡◌, refl, true, false, Option, none, some, List, Res, ok, exit, fault,
  running, ap, sym, ◌∙◌, ◌⊎◌, arith, ◌>>=◌, >>=-eq-ok, ok-injective, Bool-cases, subst, inl, inr,
}
use tcb.Base.Text.{Str}
use tcb.Base.Memory.{Memory}
use tcb.Fbview.Rotate.{Pixmap}
use tcb.Fbview.View.{fb_clear_screen}
use tcb.Fbview.Render.{fb_pixmap_render}
use tcb.Fbview.Params.{Config, Codec, decode_params}
use tcb.Fbview.Palette.{State, fb_init, fb_uninit}
use tcb.Fbview.Palette.Laws.{IsClosed, Restored, Closed, KeepsPalettes, fb_init-Restored}
use tcb.Fbview.Main.{
  World, Left, load, show, give_up, loaded_to, init, initialized, decoded, main, manipulate, save,
  screen_of,
}

-- As it was: the screen, and the palette of the device.
pub record IsUntouched (s : State) (screen : Memory) (left : Left) : Type 0 where
  pub same_screen : left.screen ≡ screen
  pub same_palette : left.state.cmap ≡ s.cmap
  pub no_dump : left.dump ≡ none

-- What is untouched if it is not 0 that is returned.
abbrev Untouched : State → Memory → Res (ℕ × Left) → Type 0
Untouched s screen r = (n : ℕ) (left : Left) → r ≡ ok (suc n, left) → IsUntouched s screen left

zero_or_suc : {A : Type 0} {n : ℕ} {a b : A} → ◌≡◌ {A = ℕ × A} (0, a) (suc n, b) → ⊥
zero_or_suc e = let bad : 0 ≡ suc _ = ap (λ t. t.0) e in absurd (omega (arith, bad))

left_as :
    {s s1 : State} {screen : Memory} {left : Left}
    → left ≡ record { state = s1; screen = screen; dump = none }
    → s1.cmap ≡ s.cmap
    → IsUntouched s screen left
left_as e same = record {
  same_screen = ap (λ l. l.screen) e;
  same_palette = ap (λ l. l.state.cmap) e ∙ same;
  no_dump = ap (λ l. l.dump) e;
}

module _ {F : Type 0} (w : World F) (s : State) (screen : Memory) where
  show-Untouched :
      (c : Config F) (s1 : State) (p : Pixmap) → Untouched s screen (show w c s1 screen p)
  unfolding show
  show-Untouched c s1 p n left came =
      let image = >>=-eq-ok (manipulate w c s1 p) _ came in
      let dump = >>=-eq-ok (save w c s1 image.0) _ image.2 in
      let cleared = >>=-eq-ok (fb_clear_screen s1.buffer_size screen) _ dump.2 in
      let shown =
        >>=-eq-ok (fb_pixmap_render (screen_of s1) image.0.memory image.0.w image.0.h 0 0 cleared.0)
          _ cleared.2 in
      absurd (zero_or_suc (ok-injective shown.2))

  Closed-Untouched :
      (r : Res State)
      → Closed s r
      → Untouched s screen (r >>= λ s1. ok (1, record { state = s1; screen = screen; dump = none }))
  Closed-Untouched (ok s1) closed n left came =
      let same : left ≡ record { state = s1; screen = screen; dump = none } =
        sym (ap (λ t. t.1) (ok-injective came)) in
      left_as same closed.0
  Closed-Untouched (exit status) closed n left came = absurd closed
  Closed-Untouched fault closed n left came = absurd closed
  Closed-Untouched running closed n left came = absurd closed

  -- A state behind the start of the program.
  abbrev Begun : Config F → State → Type 0
  Begun c s1 =
      ((c.quiet ≡ true) × (s1.cmap ≡ s.cmap))
      ⊎ ((c.quiet ≡ false) × Closed s (fb_uninit w.device s1))

  begins :
      (c : Config F) (s1 : State)
      → IsClosed s
      → w.device.bits_per_pixel < 31
      → KeepsPalettes w.device
      → init w c.quiet s ≡ ok (0, s1)
      → Begun c s1
  begins c s1 closed bits keeps e = elim (Bool-cases c.quiet) [
    | inl q ↦
        let same : ok (0, s) ≡ ok (0, s1) = ap (λ b. init w b s) (sym q) ∙ e in
        inl (q, ap (λ t. t.1.cmap) (sym (ok-injective same)))
    | inr q ↦
        let came : fb_init w.device s ≡ ok (0, s1) = ap (λ b. init w b s) (sym q) ∙ e in
        inr (q, subst (Restored w.device s) came (fb_init-Restored w.device s closed bits keeps))
  ]

  fails :
      (c : Config F) (error : ℕ) (s1 : State)
      → IsClosed s
      → w.device.bits_per_pixel < 31
      → KeepsPalettes w.device
      → init w c.quiet s ≡ ok (suc error, s1)
      → s1.cmap ≡ s.cmap
  fails c error s1 closed bits keeps e = elim (Bool-cases c.quiet) [
    | inl q ↦
        let same : ok (0, s) ≡ ok (suc error, s1) = ap (λ b. init w b s) (sym q) ∙ e in
        absurd (zero_or_suc (ok-injective same))
    | inr q ↦
        let came : fb_init w.device s ≡ ok (suc error, s1) = ap (λ b. init w b s) (sym q) ∙ e in
        (subst (Restored w.device s) came (fb_init-Restored w.device s closed bits keeps)).0
  ]

  loaded-Untouched :
      (c : Config F) (s1 : State)
      → Begun c s1
      → (o : Option Pixmap) → Untouched s screen (loaded_to w c s1 screen o)
  loaded-Untouched c s1 (inl (q, e)) none n left came =
      let gave : give_up w c s1 screen
          ≡ ok (1, record { state = s1; screen = screen; dump = none }) =
        rw q refl in
      left_as (sym (ap (λ t. t.1) (ok-injective (sym gave ∙ came)))) e
  loaded-Untouched c s1 (inr (q, e)) none n left came =
      let gave : give_up w c s1 screen ≡ (
          fb_uninit w.device s1 >>= λ s2.
          ok (1, record { state = s2; screen = screen; dump = none })) =
        rw q refl in
      Closed-Untouched (fb_uninit w.device s1) e n left (sym gave ∙ came)
  loaded-Untouched c s1 r (some p) n left came = show-Untouched c s1 p n left came

  -- What begins: quiet, or with the device.
  initialized-Untouched :
      (c : Config F) (codec : Codec) (began : ℕ × State)
      → IsClosed s
      → w.device.bits_per_pixel < 31
      → KeepsPalettes w.device
      → init w c.quiet s ≡ ok began
      → Untouched s screen (initialized w c codec screen began)
  initialized-Untouched c codec (zero, s1) closed bits keeps e n left came =
      let loaded = >>=-eq-ok (load w codec s1.pixelsize c.filename) _ came in
      loaded-Untouched c s1 (begins c s1 closed bits keeps e) loaded.0 n left loaded.2
  initialized-Untouched c codec (suc error, s1) closed bits keeps e n left came =
      left_as (sym (ap (λ t. t.1) (ok-injective came))) (fails c error s1 closed bits keeps e)

  decoded-Untouched :
      (o : Option (Config F × Codec))
      → IsClosed s
      → w.device.bits_per_pixel < 31
      → KeepsPalettes w.device
      → Untouched s screen (decoded w s screen o)
  decoded-Untouched none closed bits keeps n left came =
      left_as (sym (ap (λ t. t.1) (ok-injective came))) refl
  decoded-Untouched (some (c, codec)) closed bits keeps n left came =
      let began = >>=-eq-ok (init w c.quiet s) _ came in
      initialized-Untouched c codec began.0 closed bits keeps began.1 n left began.2

-- An error of fbview leaves things as they were: with a device of less than 31 bits a pixel that is
-- closed at the beginning, that gives its palette and takes it back, and with memory for the palettes, where `main` returns another number than 0, for whatever arguments, the
-- screen is the one before, the device has the palette it had, and there is no dump.
pub main-IsUntouched :
    {F : Type 0} (w : World F) (args : List Str) (c : Config F) (s : State) (screen : Memory)
    (n : ℕ) (left : Left)
    → IsClosed s
    → w.device.bits_per_pixel < 31
    → KeepsPalettes w.device
    → main w args c s screen ≡ ok (suc n, left)
    → IsUntouched s screen left
unfolding main
main-IsUntouched w args c s screen n left closed bits keeps came =
    decoded-Untouched w s screen (decode_params w.libc args c) closed bits keeps n left came
