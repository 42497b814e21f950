-- ===== src/Fbview/Params.antt =====
-- `decode_params` of fbview.c, in the build without gpm and libpng. `atof`, `atoi` and `malloc` are
-- parameters; a float is one of a type `F` that can be compared with the limits. There are fewer
-- than 128 arguments, as the `char` that counts them assumes.
pub mod Laws
use tcb.Base.{
  ℕ, zero, suc, ◌+◌, ◌-◌, ◌%◌, ◌^◌, ◌≡◌, Bool, true, false, not, ◌&&◌, ◌||◌, Option, none, some,
  List, [], ◌∷◌, length, ltb, leb, ◌==◌, if◌then◌else◌,
}
use tcb.Base.Text.{Str, codes, str_eq}

-- What the options are.
pub data Param : Type 0 where
  help scale autoscale rotate dump quiet file : Param

-- The tests of an argument, in their order.
unfoldable pub param : Str → Param
param s =
    if str_eq s (codes "--help")
      || str_eq s (codes "-help")
      || str_eq s (codes "-h")
      || str_eq s (codes "--h")
    then help
    else if str_eq s (codes "--scale") || str_eq s (codes "-s")
    then scale
    else if str_eq s (codes "--autoscale") || str_eq s (codes "-a")
    then autoscale
    else if str_eq s (codes "--rotate") || str_eq s (codes "-r")
    then rotate
    else if str_eq s (codes "--dump") || str_eq s (codes "-d")
    then dump
    else if str_eq s (codes "--quiet") || str_eq s (codes "-q")
    then quiet
    else file

-- The remainder of C on the bit pattern of a `Sint16`: it has the sign of the dividend.
abbrev pub rem_16 : ℕ → ℕ → ℕ
rem_16 r n = if ltb r (2 ^ 15) then r % n else (2 ^ 16 - (2 ^ 16 - r) % n) % 2 ^ 16

-- The branch of --rotate, on the bit pattern of `atoi`; `none` is `return 1`.
unfoldable pub decode_rotate : ℕ → Option ℕ
decode_rotate int =
    let r0 = int % 2 ^ 16 in
    let r1 = if ltb r0 (2 ^ 15) then r0 else (2 ^ 16 - r0 + 180) % 2 ^ 16 in
    let r2 = rem_16 r1 360 in if rem_16 r2 90 == 0 then some r2 else none

-- What follows the last dot, `strrchr(filename, '.') + 1`.
unfoldable pub extension : Str → Option Str
extension [] = none
extension (c ∷ s) = elim (extension s) [
  | some t ↦ some t
  | none ↦ if c == b'.' then some s else none
]

abbrev pub toupper : ℕ → ℕ
toupper c = if leb 97 c && leb c 122 then c - 32 else c

abbrev pub upper : Str → Str
upper [] = []
upper (c ∷ s) = toupper c ∷ upper s

pub data Codec : Type 0 where
  bmp2fb_pixmap jpeg2fb_pixmap : Codec

-- `image_codec` by the extension; `none` is the null pointer.
unfoldable pub codec_of : Str → Option Codec
codec_of ext =
    if str_eq ext (codes "BMP")
    then some bmp2fb_pixmap
    else if str_eq ext (codes "JPG") || str_eq ext (codes "JPEG")
    then some jpeg2fb_pixmap
    else none

-- The C library, and `scale < 0.01 || scale > 10.00`.
pub record Libc (F : Type 0) : Type 0 where
  pub atof : Str → F
  pub is_out : F → Bool
  pub atoi : Str → ℕ
  pub malloc : ℕ → Bool

-- The globals that it sets.
pub record Config (F : Type 0) : Type 0 where
  pub filename : Option Str
  pub dump_filename : Option Str
  pub quiet : Bool
  pub scale : F
  pub rotate : ℕ
  pub autoscale : Bool

module _ {F : Type 0} (libc : Libc F) where
  -- The branches with a value, without one, and that of a file.
  unfoldable pub with_value : Param → Str → Config F → Option (Config F)
  unfolding decode_rotate
  with_value scale s c =
      let f = libc.atof s in if libc.is_out f then none else some (record c { scale = f })
  with_value rotate s c = elim (decode_rotate (libc.atoi s)) [
    | none ↦ none
    | some r ↦ some (record c { rotate = r })
  ]
  with_value dump s c =
      if libc.malloc (length s + 1) then some (record c { dump_filename = some s }) else none
  with_value _ s c = none

  unfoldable pub without_value : Param → Str → Config F → Option (Config F)
  without_value autoscale s c = some (record c { autoscale = true })
  without_value quiet s c = some (record c { quiet = true })
  without_value file s c =
      if libc.malloc (length s + 1) then some (record c { filename = some s }) else none
  without_value _ s c = none

  abbrev pub takes_value : Param → Bool
  takes_value scale = true
  takes_value rotate = true
  takes_value dump = true
  takes_value _ = false

  -- The loop over the arguments; `none` is `return 1`.
  unfoldable pub decode_loop : List Str → Config F → Option (Config F)
  unfolding param with_value without_value
  decode_loop [] c = some c
  decode_loop (a ∷ []) c = without_value (param a) a c
  decode_loop (a ∷ b ∷ args) c = elim (takes_value (param a)) [
    | true ↦ elim (with_value (param a) b c) [ none ↦ none | some c1 ↦ decode_loop args c1 ]
    | false ↦ elim (without_value (param a) a c) [
      | none ↦ none
      | some c1 ↦ decode_loop (b ∷ args) c1
    ]
  ]

  -- What follows the loop.
  abbrev pub codec_for : Option Str → Option Codec
  codec_for none = none
  codec_for (some name) = elim (extension name) [
    | none ↦ none
    | some ext ↦ if libc.malloc (length ext + 1) then codec_of (upper ext) else none
  ]

  abbrev pub finish : Option (Config F) → Option (Config F × Codec)
  finish none = none
  finish (some c) = elim (codec_for c.filename) [ none ↦ none | some codec ↦ some (c, codec) ]

  -- `decode_params`, of the arguments behind the program's name.
  unfoldable pub decode_params : List Str → Config F → Option (Config F × Codec)
  decode_params args c = finish (decode_loop args c)
