-- ===== src/Tests/Creation.antt =====
-- A database that is created in memory, and opened.
use nu_db.Prelude.{ℕ, suc, List, ◌≡◌, refl, some, false, arith}
use nu_db.Error.{ok, err, key_not_found, ok-injective}
use nu_db.Endian.{little}
use nu_db.Format.{Hasher, pepper}
use nu_db.Create.{Settings, made, create}
use nu_db.File.{Works}
use nu_db.Create.Opens.{IsSettings, IsEmptyDatabase}
use nu_db.Create.Fresh.{create-IsEmptyDatabase}
use nu_db.Commit.Steps.{Committer}
use nu_db.Store.{fetch, exists_stored}
use nu_db.Open.{open_store}
use nu_db.Open.Fresh.{open_store-create}
use nu_db.Tests.Device.{Device, blank, device, device_laws, device_reads}

pub works : Works device device_laws
unfolding device_laws
works = record {
  writes = λ f p bs. (_, refl);
  syncs = λ f. (f, refl);
  sync_lem = λ f g e x. cc (ok-injective e);
  sync_extent = λ f g e. cc (ok-injective e);
  sizes = λ f. refl;
  reads = device_reads;
}

abbrev settings : Settings
settings = record {
  uid = 12345;
  appnum = 1;
  salt = 99;
  key_size = 32;
  block_size = 256;
  load = some 32768;
}

abbrev pub five : Hasher
five salt bytes = 5

settings-IsSettings : IsSettings little five settings 32768
unfolding pepper
settings-IsSettings = record {
  loaded = refl;
  positive = omega arith;
  keys = omega arith;
  short_keys = omega arith;
  large = omega arith;
  small = omega arith;
  uid = omega arith;
  appnum = omega arith;
  salt = omega arith;
  pepper_fits = omega arith;
}

create-IsEmptyDatabase_example :
    (d k l : Device) × (create device little five (λ x. 7) settings (ok blank) (ok blank) (ok blank)
      ≡ made d k l)
    × IsEmptyDatabase device little five settings 32768 d k
create-IsEmptyDatabase_example =
    create-IsEmptyDatabase device device_laws works little five (λ x. 7) settings 32768 blank blank
      blank settings-IsSettings (unfold device_laws in refl)

open_store-create_example :
    (d k l : Device) × (c : Committer Device) × (create device little five
        (λ x. 7)
        settings
        (ok blank)
        (ok blank)
        (ok blank)
      ≡ made d k l)
    × (open_store device little five (λ x. 0) 4096 4096 4096 (ok d) (ok k) (ok blank) ≡ ok c)
    × ((buf q fuel : ℕ) (key : List ℕ)
        → (fetch device five buf q (suc fuel) c.store key ≡ some (err key_not_found))
          × (exists_stored device five buf q (suc fuel) c.store key ≡ some (ok false)))
open_store-create_example =
    open_store-create device device_laws works little five (λ x. 7) settings 32768 4096 4096 4096
      (λ x. 0) blank blank blank blank settings-IsSettings (unfold device_laws in refl)
      (omega arith)
