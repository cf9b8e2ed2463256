-- ===== src/Yum/Examples.antt =====
-- A yum repository whose calls of other packages succeed, for the tests of the other modules.
pub mod Store
pub mod Loops
pub mod Calls
mod Removals
use beskar.Prelude.{ℕ, String, ◌==◌, true, false, Option, none, some, List, [], ◌∷◌, if◌then◌else◌}
use beskar.Prelude.Outcome.{Outcome, done, Err}
use beskar.Prelude.Result.{Result, ok, err}
use beskar.Event.{EventPayload, Action, Origin}
use beskar.Repository.Queue.{RepoHandler}
use beskar.Repository.Artifacts.{Artifacts}
use beskar.Yum.Sql.{Io}
use beskar.Yum.Packages.{RepositoryPackage}
use beskar.Yum.Metadata.{PackageMetadata}
use beskar.Yum.Status.{Properties, Reposync, StatusDb, Codec}
use beskar.Yum.Handler.{Handler, Database, status, QueueIo}
use beskar.Yum.Properties.{Formats, InitIo}
use beskar.Yum.Events.{EventIo}
use beskar.Yum.Manifests.{PackageIo, Manifest, Layer}
use beskar.Yum.Extra.{ExtraIo}
use beskar.Yum.Api.{ApiIo}

abbrev pub fine : Io
fine = record { opening = none; exec = none; affected = none }

abbrev pub codec : Codec
codec = record {
  marshal = λ e. ok e.payload;
  unmarshal = λ s. ok (record {
    repository = "artifacts/yum/el9";
    digest = "sha256:aa";
    mediatype = "manifest";
    payload = s;
    action = Action.put;
    origin = Origin.external;
  });
}

abbrev pub push_rpm : EventPayload
push_rpm = record {
  repository = "artifacts/yum/el9";
  digest = "sha256:aa";
  mediatype = "manifest";
  payload = "m";
  action = Action.put;
  origin = Origin.external;
}

abbrev pub drop_rpm : EventPayload
drop_rpm = record push_rpm { digest = "sha256:bb"; action = Action.delete }

abbrev pub bash_pkg : RepositoryPackage
bash_pkg = record {
  tag = "";
  id = "aa";
  name = "bash";
  upload_time = 3;
  build_time = 2;
  size = 10;
  architecture = "x86_64";
  source_rpm = "bash.src.rpm";
  version = "5.1";
  release = "2";
  groups = "";
  license = "GPL";
  vendor = "";
  summary = "";
  description = "";
  verified = true;
  gpg_signature = "";
}

abbrev pub bash_metadata : PackageMetadata
bash_metadata = record { name = "bash"; id = "aa"; primary = "p"; filelists = "f"; other = "o" }

abbrev pub stored : Properties
stored = record { created = true; mirror = false; mirror_urls = "u"; gpg_key = "" }

abbrev pub synced : Reposync
synced = record {
  syncing = false;
  start_time = 0;
  end_time = 0;
  total_packages = 0;
  synced_packages = 0;
  sync_error = "";
}

abbrev pub running : RepoHandler
running = record {
  queue = [];
  queued = false;
  queued_closed = false;
  started_closed = true;
  stopped = false;
  cancelled = false;
}

abbrev pub el9 : Handler
el9 = record {
  repository_name = "artifacts/yum/el9";
  repo = running;
  artifacts = record { chans = []; sync_artifacts = [] };
  opened = λ d. elim d [ status ↦ true | _ ↦ false ];
  status_db = record { events = []; properties = some stored; reposync = some synced };
  packages = [];
  package_metadata = [];
  extra_metadata = [];
  sync_ch = none;
  sync_ch_closed = false;
  reposync = some synced;
  syncing = false;
  created = true;
  mirror = false;
  keyring = none;
  mirror_urls = "u" ∷ [];
  delete = false;
  closed = [];
  deleted = [];
  removed = false;
  manifest_deletes = [];
  metadata_pushes = 0;
}

-- A list of URLs is written as its first URL; only one text is a key ring.
abbrev pub formats : Formats
formats = record {
  encode_gob = λ urls. elim urls [
    | [] ↦ err "no url"
    | u ∷ us ↦ elim us [ [] ↦ (if u == "" then err "empty" else ok u) | _ ∷ _ ↦ err "long" ]
  ];
  decode_gob = λ s. ok (s ∷ []);
  parse_url = λ u. ok u;
  read_keyring = λ s. if s == "key" then ok "ring" else err "not armored";
}

abbrev pub api_io : ApiIo
api_io = record { formats = formats; opening = none; get = fine; update = fine; sync = none }

abbrev pub init_io : InitIo
init_io = record { formats = formats; opening = none; properties = fine; reposync = fine }

abbrev pub queue_io : QueueIo
queue_io = record { opening = none; add = fine; sync = none }

abbrev pub package_io : PackageIo
package_io = record {
  md5_hex = λ s. s;
  download_blob = λ r. none;
  validate = λ hex k. ok bash_pkg;
  extract = λ hex. ok bash_metadata;
  delete_manifest = λ d. none;
  opening = λ d. none;
  packages = fine;
  metadata = fine;
  sync = λ d. none;
}

abbrev pub rpm_layer : Layer
rpm_layer = record {
  media_type = "application/vnd.ciq.rpm.package.v1.rpm";
  digest = "sha256:aa";
  hex = "aa";
  title = "bash.rpm";
}

-- Every layer is one of comps.
abbrev pub extra_io : ExtraIo
extra_io = record {
  data_type_of = λ m. some "comps";
  download_blob = λ r. none;
  open_file = λ f. none;
  copy = λ f.
      ok (record {
        hex = "cc";
        bytes_read = 3;
        content = "xml";
        open_hex = "";
        open_bytes_read = 0;
      });
  now = 7;
  opening = none;
  extra = fine;
  sync = none;
}

-- The payload "m" is the manifest of a package, and no other payload is a manifest.
abbrev pub event_io : EventIo
event_io = record {
  stop = λ e. false;
  parse_manifest = λ s.
      if s == "m"
      then some (record {
        config_media_type = "application/vnd.ciq.rpm.package.v1.config+json";
        layers = rpm_layer ∷ [];
      })
      else none;
  packages = package_io;
  extra = extra_io;
  remove = fine;
}

-- The handler at the end of a call that returns one.
abbrev pub handler_of {ℓ} : {A : Type ℓ} → Handler → Outcome (A × Handler) → Handler
handler_of h (done (a, k)) = k
handler_of h _ = h

abbrev pub end_of : Handler → Outcome Handler → Handler
end_of h (done k) = k
end_of h _ = h

abbrev pub result_of : Handler → Outcome (Err × Handler) → Err × Handler
result_of h (done r) = r
result_of h _ = (none, h)
