-- ===== src/Codes/Origin.antt =====
-- `Module` of src/result.rs with the conversions that `derive(EnumCast)` gives it (`u8` values).
use ctru_rt.Base.{ℕ, ◌<◌, List, [], ◌∷◌, Option, none, some, ◌≡◌, refl, arith, Result, okay}
use ctru_rt.EnumCast.{number_variants, match_value}
use ctru_rt.EnumCast.Laws.{Agrees, match_value_sound}

pub data Module : Type 0 where
  common kernel util file_server loader_server tcb os dbg dmnt pdn gsp i2c gpio dd codec spi :
      Module
  pxi fs di hid cam pi pm pm_low fsi srv ndm nwm soc ldr acc rom_fs am hio updater mic fnd mp :
      Module
  mpwl ac http dsp snd dlp hio_low csnd ssl am_low nex friends rdt applet nim ptm midi mc swc :
      Module
  fat_fs ngc card card_nor sdmc boss dbm config ps cec ir uds pl cup gyroscope mcu ns news ro :
      Module
  gd card_spi ec web_browser test enc pia act vct_l olv neia npns avd l2b mvd nfc uart spm qtm :
      Module
  nfp application invalid : Module

-- The variants in their order, with the discriminants that are written.
abbrev pub variants : List (Module × Option ℕ)
variants =
    (common, none)
    ∷ (kernel, none)
    ∷ (util, none)
    ∷ (file_server, none)
    ∷ (loader_server, none)
    ∷ (tcb, none)
    ∷ (os, none)
    ∷ (dbg, none)
    ∷ (dmnt, none)
    ∷ (pdn, none)
    ∷ (gsp, none)
    ∷ (i2c, none)
    ∷ (gpio, none)
    ∷ (dd, none)
    ∷ (codec, none)
    ∷ (spi, none)
    ∷ (pxi, none)
    ∷ (fs, none)
    ∷ (di, none)
    ∷ (hid, none)
    ∷ (cam, none)
    ∷ (pi, none)
    ∷ (pm, none)
    ∷ (pm_low, none)
    ∷ (fsi, none)
    ∷ (srv, none)
    ∷ (ndm, none)
    ∷ (nwm, none)
    ∷ (soc, none)
    ∷ (ldr, none)
    ∷ (acc, none)
    ∷ (rom_fs, none)
    ∷ (am, none)
    ∷ (hio, none)
    ∷ (updater, none)
    ∷ (mic, none)
    ∷ (fnd, none)
    ∷ (mp, none)
    ∷ (mpwl, none)
    ∷ (ac, none)
    ∷ (http, none)
    ∷ (dsp, none)
    ∷ (snd, none)
    ∷ (dlp, none)
    ∷ (hio_low, none)
    ∷ (csnd, none)
    ∷ (ssl, none)
    ∷ (am_low, none)
    ∷ (nex, none)
    ∷ (friends, none)
    ∷ (rdt, none)
    ∷ (applet, none)
    ∷ (nim, none)
    ∷ (ptm, none)
    ∷ (midi, none)
    ∷ (mc, none)
    ∷ (swc, none)
    ∷ (fat_fs, none)
    ∷ (ngc, none)
    ∷ (card, none)
    ∷ (card_nor, none)
    ∷ (sdmc, none)
    ∷ (boss, none)
    ∷ (dbm, none)
    ∷ (config, none)
    ∷ (ps, none)
    ∷ (cec, none)
    ∷ (ir, none)
    ∷ (uds, none)
    ∷ (pl, none)
    ∷ (cup, none)
    ∷ (gyroscope, none)
    ∷ (mcu, none)
    ∷ (ns, none)
    ∷ (news, none)
    ∷ (ro, none)
    ∷ (gd, none)
    ∷ (card_spi, none)
    ∷ (ec, none)
    ∷ (web_browser, none)
    ∷ (test, none)
    ∷ (enc, none)
    ∷ (pia, none)
    ∷ (act, none)
    ∷ (vct_l, none)
    ∷ (olv, none)
    ∷ (neia, none)
    ∷ (npns, none)
    ∷ (avd, some 90)
    ∷ (l2b, none)
    ∷ (mvd, none)
    ∷ (nfc, none)
    ∷ (uart, none)
    ∷ (spm, none)
    ∷ (qtm, none)
    ∷ (nfp, none)
    ∷ (application, some 254)
    ∷ (invalid, some 255)
    ∷ []

unfoldable pub to_value : Module → ℕ
to_value common = 0
to_value kernel = 1
to_value util = 2
to_value file_server = 3
to_value loader_server = 4
to_value tcb = 5
to_value os = 6
to_value dbg = 7
to_value dmnt = 8
to_value pdn = 9
to_value gsp = 10
to_value i2c = 11
to_value gpio = 12
to_value dd = 13
to_value codec = 14
to_value spi = 15
to_value pxi = 16
to_value fs = 17
to_value di = 18
to_value hid = 19
to_value cam = 20
to_value pi = 21
to_value pm = 22
to_value pm_low = 23
to_value fsi = 24
to_value srv = 25
to_value ndm = 26
to_value nwm = 27
to_value soc = 28
to_value ldr = 29
to_value acc = 30
to_value rom_fs = 31
to_value am = 32
to_value hio = 33
to_value updater = 34
to_value mic = 35
to_value fnd = 36
to_value mp = 37
to_value mpwl = 38
to_value ac = 39
to_value http = 40
to_value dsp = 41
to_value snd = 42
to_value dlp = 43
to_value hio_low = 44
to_value csnd = 45
to_value ssl = 46
to_value am_low = 47
to_value nex = 48
to_value friends = 49
to_value rdt = 50
to_value applet = 51
to_value nim = 52
to_value ptm = 53
to_value midi = 54
to_value mc = 55
to_value swc = 56
to_value fat_fs = 57
to_value ngc = 58
to_value card = 59
to_value card_nor = 60
to_value sdmc = 61
to_value boss = 62
to_value dbm = 63
to_value config = 64
to_value ps = 65
to_value cec = 66
to_value ir = 67
to_value uds = 68
to_value pl = 69
to_value cup = 70
to_value gyroscope = 71
to_value mcu = 72
to_value ns = 73
to_value news = 74
to_value ro = 75
to_value gd = 76
to_value card_spi = 77
to_value ec = 78
to_value web_browser = 79
to_value test = 80
to_value enc = 81
to_value pia = 82
to_value act = 83
to_value vct_l = 84
to_value olv = 85
to_value neia = 86
to_value npns = 87
to_value avd = 90
to_value l2b = 91
to_value mvd = 92
to_value nfc = 93
to_value uart = 94
to_value spm = 95
to_value qtm = 96
to_value nfp = 97
to_value application = 254
to_value invalid = 255

unfoldable pub from_value : ℕ → Result Module ℕ
unfolding number_variants match_value
from_value value = match_value (number_variants 0 variants) value

variants-Agrees : Agrees to_value (number_variants 0 variants)
unfolding to_value number_variants
variants-Agrees = ground arith

pub from_value-to_value : (x : Module) → from_value (to_value x) ≡ okay x
unfolding from_value to_value
from_value-to_value common = refl
from_value-to_value _ = refl

pub to_value-from_value : (v : ℕ) (x : Module) → from_value v ≡ okay x → to_value x ≡ v
unfolding from_value
to_value-from_value v x e =
    match_value_sound to_value (number_variants 0 variants) v variants-Agrees e

pub to_value-lt : (x : Module) → to_value x < 256
unfolding to_value
to_value-lt common = omega arith
to_value-lt _ = omega arith
