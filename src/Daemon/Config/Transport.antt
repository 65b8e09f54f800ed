-- ===== src/Daemon/Config/Transport.antt =====
-- Whether the registry is reached over TLS: daemon/daemon/config.py with daemon/daemon/registry/client.py.
use mathlib.Core.Option.{get_or}
use peerdup.Prelude.Table.{is_some}
use peerdup.Prelude.{◌&&◌, not}
use peerdup.Prelude.{
  Text, truthy, Bool, true, false, ◌≡◌, sym, ap, ◌∙◌, inl, inr, Option, none, some, [], arith,
  Bool-cases, if◌then◌else◌,
}
use peerdup.Daemon.Coordinator.{returns}
use peerdup.Daemon.Config.{Environment, Raw, Config}
use peerdup.Daemon.Config.Loader.{
  Arguments, apply_override, apply_attributes, replace_field, replace_fields, apply_overrides,
  from_dict, given, overrides_of, registry_from, resolve_paths, load_config, validate,
}

-- The address of the command line, if one is given there.
abbrev pub address_or : Option Text → Text → Text
address_or arg address = if given arg then get_or arg [] else address

-- The command line replaces no field.
overrides_of-fields :
    (e : Environment) (args : Arguments) (c : Config) → replace_fields (overrides_of e args) c ≡ c
unfolding overrides_of replace_field replace_fields
overrides_of-fields e args c = ground arith

overrides_of-registry :
    (e : Environment) (args : Arguments) (c : Config)
    → ((apply_attributes (overrides_of e args) c).registry.tls ≡ c.registry.tls)
      × ((apply_attributes (overrides_of e args) c).registry.address
          ≡ address_or args.registry c.registry.address)
unfolding overrides_of apply_override apply_attributes
overrides_of-registry e args c = (ground arith, ground arith)

-- The value of the file, or whether there is an address.
file_tls :
    (tls : Option Bool) (address : Text)
    → (if truthy address && not (is_some tls) then true else get_or tls false)
      ≡ get_or tls (truthy address)
file_tls none address = ground arith
file_tls (some b) address = ground arith

-- In a configuration that loads with the arguments of the command line, the registry is reached over TLS as
-- the file says, and where it does not say, exactly if the file itself has an address; while its address is
-- the one of the command line if one is given there, so that such an address alone is reached without TLS.
pub load_config-tls :
    (e : Environment) (raw : Raw) (args : Arguments) (c : Config)
    → load_config e raw (overrides_of e args) ≡ returns c
    → (c.registry.tls ≡ get_or raw.registry.tls (truthy (get_or raw.registry.address [])))
      × (c.registry.address ≡ address_or args.registry (get_or raw.registry.address []))
unfolding load_config resolve_paths from_dict registry_from apply_overrides
load_config-tls e raw args c loaded =
    let read = from_dict e raw in
    let os = overrides_of e args in
    let made = resolve_paths e (apply_overrides os read) in
    let (tls, address) = overrides_of-registry e args read in
    let fields = overrides_of-fields e args (apply_attributes os read) in
    let by_file : read.registry.tls
        ≡ get_or raw.registry.tls (truthy (get_or raw.registry.address [])) =
      file_tls raw.registry.tls (get_or raw.registry.address []) in
    elim (Bool-cases (validate e made)) [
      | inl valid ↦
          let is : made ≡ c = ground (arith, valid, loaded) in
          (
            sym (ap (λ x. x.registry.tls) is) ∙ ap (λ x. x.registry.tls) fields ∙ tls ∙ by_file,
            sym (ap (λ x. x.registry.address) is) ∙ ap (λ x. x.registry.address) fields ∙ address,
          )
      | inr invalid ↦ ground (arith, invalid, loaded)
    ]
