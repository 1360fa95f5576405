-- ===== src/Storage/KeyIdMemstore.antt =====
-- `KeyIdMemstore` of identity_storage/src/key_id_storage/memstore.rs.
use zk_identity.Prelude.{
  ◌≡◌, true, Bool, ◌&&◌, none, some, Text, eqb, PartialEq, if◌then◌else◌, arith,
}
use zk_identity.Prelude.Outcome.{Outcome, ok, err}
use zk_identity.Prelude.HashMap
use zk_identity.Prelude.HashMap.{HashMap}
use zk_identity.Storage.Traits.{
  MethodDigest, KeyIdStorageError, key_id_already_exists, key_id_not_found, KeyIdStorage,
}

-- the derived `PartialEq` of `MethodDigest`
unfoldable pub digest_eqb : MethodDigest → MethodDigest → Bool
digest_eqb a b = eqb a.version b.version && eqb a.value b.value

pub digest_eqb_refl : (a : MethodDigest) → digest_eqb a a ≡ true
unfolding digest_eqb
digest_eqb_refl a = ground arith

pub digest_eqb_sym : (a b : MethodDigest) → digest_eqb a b ≡ true → digest_eqb b a ≡ true
unfolding digest_eqb
digest_eqb_sym a b h = ground arith

pub digest_eqb_trans :
    (a b c : MethodDigest) → digest_eqb a b ≡ true → digest_eqb b c ≡ true → digest_eqb a c ≡ true
unfolding digest_eqb
digest_eqb_trans a b c h k = ground arith

instance abbrev pub digest_eq : PartialEq MethodDigest
digest_eq = record {
  eq = digest_eqb;
  eq_refl = digest_eqb_refl;
  eq_sym = digest_eqb_sym;
  eq_trans = digest_eqb_trans;
}

abbrev pub KeyIdStore : Type 0
KeyIdStore = HashMap MethodDigest Text

unfoldable pub insert_key_id :
    KeyIdStore → MethodDigest → Text → KeyIdStore × Outcome KeyIdStorageError (Unit {0})
insert_key_id s key value =
    if HashMap.contains_key s key
    then (s, err key_id_already_exists)
    else (HashMap.insert s key value, ok tt)

unfoldable pub get_key_id : KeyIdStore → MethodDigest → KeyIdStore × Outcome KeyIdStorageError Text
get_key_id s key = (s, elim (HashMap.get s key) [ none ↦ err key_id_not_found | some v ↦ ok v ])

unfoldable pub delete_key_id :
    KeyIdStore → MethodDigest → KeyIdStore × Outcome KeyIdStorageError (Unit {0})
delete_key_id s key =
    let (store, removed) = HashMap.remove s key in
    (store, elim removed [ none ↦ err key_id_not_found | some v ↦ ok tt ])

-- `KeyIdMemstore` as a `KeyIdStorage`
abbrev pub key_id_mem_store : KeyIdStorage
key_id_mem_store = record {
  State = KeyIdStore;
  insert_key_id = insert_key_id;
  get_key_id = get_key_id;
  delete_key_id = delete_key_id;
}
