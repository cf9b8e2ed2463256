-- ===== src/Yum/Examples/Calls.antt =====
-- The theorems on the API calls and on the loading of the properties at concrete inputs.
use beskar.Prelude.{
  Option, ℕ, String, ◌≡◌, refl, true, false, none, some, List, [], ◌∷◌, ◌==◌, arith,
}
use beskar.Prelude.Outcome.{Outcome, done, blocked, Err}
use beskar.Prelude.Result.{ok}
use beskar.Repository.Queue.{started}
use beskar.Yum.Sql.{exec_one, query_row}
use beskar.Yum.Status.{Properties, update_properties, get_properties, get_reposync}
use beskar.Yum.Handler.{Handler, get_db}
use beskar.Yum.Properties.{
  set_mirror_urls, set_keyring, parse_urls, init_properties, init_mirror_urls, init_keyring,
  load_stored, load_properties, load_reposync,
}
use beskar.Yum.Api.{
  RepositoryProperties, when_started, read_properties, apply_key, apply_urls, store_properties,
  apply_properties, create_repository, update_stored, update_started, update_repository,
}
use beskar.Yum.Api.Coherence.{Coherent, IsFormats}
use beskar.Yum.Api.Agreement.{Agrees, update_repository-Agrees}
use beskar.Yum.Api.Sync.{already_running, sync_repository, sync_started, claim_sync, send_sync}
use beskar.Yum.Api.Sync.Exclusive.{Requested, sync_repository-Requested}
use beskar.Yum.Api.Restart.{IsFresh, restart-eq}
use beskar.Yum.Examples.{stored, el9, formats, api_io, init_io, handler_of}

formats-IsFormats : IsFormats formats
formats-IsFormats = record {
  decode-encode = decode-encode;
  encode_ne = encode_ne;
  no_key = λ k e. ground arith;
}
  where
    decode-encode :
        (urls : List String) (s : String)
        → formats.encode_gob urls ≡ ok s
        → formats.decode_gob s ≡ ok urls
    decode-encode [] s e = ground arith
    decode-encode (u ∷ []) s e = ground arith
    decode-encode (u ∷ v ∷ us) s e = ground arith

    encode_ne :
        (urls : List String) (s : String) → formats.encode_gob urls ≡ ok s → (s == "") ≡ false
    encode_ne [] s e = ground arith
    encode_ne (u ∷ []) s e = ground arith
    encode_ne (u ∷ v ∷ us) s e = ground arith

el9-Coherent : Coherent formats stored el9
unfolding parse_urls
el9-Coherent = record { mirror = refl; urls = refl; key = refl }

el9-Agrees : Agrees api_io formats-IsFormats stored el9
el9-Agrees = (refl, el9-Coherent)

abbrev as_mirror : RepositoryProperties
as_mirror = record { mirror = some true; mirror_urls = some ("v" ∷ []); gpg_key = some "key" }

abbrev updated : Handler
updated = handler_of el9 (update_repository api_io (some as_mirror) el9)

update_repository-Agrees_example :
    (q : Properties) × Agrees api_io formats-IsFormats q updated
    × (q.created ≡ true)
    × (q.mirror ≡ true)
unfolding update_repository when_started update_started read_properties update_stored
    apply_properties apply_key apply_urls store_properties started get_db get_properties query_row
    update_properties exec_one set_keyring set_mirror_urls parse_urls
update_repository-Agrees_example =
    update_repository-Agrees api_io formats-IsFormats as_mirror stored el9 updated el9-Agrees refl

-- A repository whose first event came before it was created.
abbrev not_created : Properties
not_created = record stored { created = false }

abbrev new_el9 : Handler
new_el9 = record el9 {
  status_db = record el9.status_db { properties = some not_created };
  created = false;
}

new_el9-Agrees : Agrees api_io formats-IsFormats not_created new_el9
unfolding parse_urls
new_el9-Agrees = (refl, record { mirror = refl; urls = refl; key = refl })

abbrev created : Handler
created = handler_of new_el9 (create_repository api_io (some as_mirror) new_el9)

-- The handler that a restart makes on the same database.
abbrev fresh : Handler
fresh = record el9 { reposync = none; created = false; mirror_urls = []; opened = λ d. false }

fresh-IsFresh : IsFresh fresh
fresh-IsFresh = (refl, refl)

abbrev restarted : Handler
restarted = (init_properties init_io fresh).1

restart-eq_example :
    (restarted.mirror ≡ el9.mirror)
    × (restarted.mirror_urls ≡ el9.mirror_urls)
    × (restarted.keyring ≡ el9.keyring)
unfolding init_properties init_mirror_urls init_keyring load_stored load_properties load_reposync
    get_db get_properties get_reposync query_row set_mirror_urls parse_urls
restart-eq_example =
    restart-eq init_io stored el9 fresh restarted refl el9-Coherent fresh-IsFresh refl refl

abbrev idle_mirror : Handler
idle_mirror = record el9 { mirror = true }

abbrev syncing_mirror : Handler
syncing_mirror = record idle_mirror { syncing = true; sync_ch = some none }

abbrev unserved : ℕ → Handler → Outcome (Err × Handler)
unserved ch h = blocked

sync_repository-Requested_example :
    Requested idle_mirror syncing_mirror
    × ((wait : Option ℕ) (served' : ℕ → Handler → Outcome (Err × Handler))
        → sync_repository wait served' syncing_mirror ≡ done (some already_running, syncing_mirror))
unfolding sync_repository sync_started claim_sync send_sync started
sync_repository-Requested_example =
    sync_repository-Requested idle_mirror syncing_mirror unserved refl refl refl
