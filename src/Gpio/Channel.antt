-- ===== src/Gpio/Channel.antt =====
-- The digital outputs and inputs of the gateway: project/iot-gw/module/src/do.c and
-- project/iot-gw/module/src/di.c.
use linux_comon.Prelude.{ℕ, Option, none, some, List, [], ◌∷◌, if◌then◌else◌}
use linux_comon.Prelude.Int.{ℤ, pos, minus_one, negative, is_zero, equal}
use linux_comon.Gpio.Files.{Files, M, ◌>>=◌, pure, system, gpio_mode}
use linux_comon.Gpio.Pin.{
  gpio_export, gpio_set_direction, gpio_set_level, gpio_get_level, gpio_dir_in, gpio_dir_out,
}

-- `struct do_channel` and `struct di_channel`
pub record Channel : Type 0 where
  pub channel : ℤ
  pub port_path : List ℕ
  pub port : ℕ

-- The characters "PD" and then the given ones.
abbrev pub port_name : List ℕ → List ℕ
port_name cs = 80 ∷ 68 ∷ cs

abbrev pub do_chns : List Channel
do_chns =
    record { channel = pos 0; port_path = port_name (52 ∷ []); port = 100 }
    ∷ record { channel = pos 1; port_path = port_name (53 ∷ []); port = 101 }
    ∷ record { channel = pos 2; port_path = port_name (54 ∷ []); port = 102 }
    ∷ record { channel = pos 3; port_path = port_name (55 ∷ []); port = 103 }
    ∷ []

abbrev pub di_chns : List Channel
di_chns =
    record { channel = pos 0; port_path = port_name (56 ∷ []); port = 104 }
    ∷ record { channel = pos 1; port_path = port_name (57 ∷ []); port = 105 }
    ∷ record { channel = pos 2; port_path = port_name (49 ∷ 48 ∷ []); port = 106 }
    ∷ record { channel = pos 3; port_path = port_name (49 ∷ 49 ∷ []); port = 107 }
    ∷ []

-- The loop that `do_get_chn` and `di_get_chn` share.
abbrev pub find_chn : ℤ → List Channel → Option Channel
find_chn channel [] = none
find_chn channel (c ∷ cs) = if equal c.channel channel then some c else find_chn channel cs

unfoldable pub do_get_chn : ℤ → Option Channel
do_get_chn channel = find_chn channel do_chns

unfoldable pub di_get_chn : ℤ → Option Channel
di_get_chn channel = find_chn channel di_chns

module _ {World : Type 0} (s : Files World) where
  unfoldable pub gpio_set_out : Channel → M World ℤ
  gpio_set_out c = do
    muxed ← system s (gpio_mode c.port_path 1)
    if is_zero muxed
        then (do
          exported ← gpio_export s c.port
          if is_zero exported
              then (do
                ret ← gpio_set_direction s c.port gpio_dir_out
                if is_zero ret then pure ret else pure minus_one)
              else pure minus_one)
        else pure minus_one

  unfoldable pub gpio_set_in : Channel → M World ℤ
  gpio_set_in c = do
    muxed ← system s (gpio_mode c.port_path 0)
    if is_zero muxed
        then (do
          exported ← gpio_export s c.port
          if is_zero exported
              then (do
                ret ← gpio_set_direction s c.port gpio_dir_in
                if is_zero ret then pure ret else pure minus_one)
              else pure minus_one)
        else pure minus_one

  -- The loop of `do_init` and `di_init`.
  unfoldable pub init_all : (Channel → M World ℤ) → List Channel → M World ℤ
  init_all set [] = pure (pos 0)
  init_all set (c ∷ cs) =
      let rest = init_all set cs in set c >>= λ ret. if is_zero ret then rest else pure minus_one

  unfoldable pub do_init : M World ℤ
  do_init = init_all gpio_set_out do_chns

  unfoldable pub di_init : M World ℤ
  di_init = init_all gpio_set_in di_chns

  unfoldable pub do_out : ℤ → ℤ → M World ℤ
  do_out channel level = elim (do_get_chn channel) [
    | none ↦ pure minus_one
    | some c ↦ gpio_set_level s c.port level >>= λ ret.
        if negative ret then pure minus_one else pure (pos 0)
  ]

  -- The second component is what `level` points to afterwards.
  unfoldable pub di_read : ℤ → ℕ → M World (ℤ × ℕ)
  di_read channel level = elim (di_get_chn channel) [
    | none ↦ pure (minus_one, level)
    | some c ↦ gpio_get_level s c.port level >>= λ r.
        if negative (r.0) then pure (minus_one, r.1) else pure (pos 0, r.1)
  ]
