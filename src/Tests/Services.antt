-- ===== src/Tests/Services.antt =====
-- The image service, the locks and the sessions at concrete inputs.
use containerd_rs.Base.{
  ◌≡◌, ◌≢◌, Bytes, false, refl, ◌≤◌, [], ◌∷◌, ◌++◌, text, Bool, true, none, some, ok, str_eq,
  lookup, insert, remove,
}
use containerd_rs.CoreTypes.{display, sha256}
use containerd_rs.Metadata.Store.{
  Store, key, get, put, list, delete, table, set_table, list_entries,
}
use containerd_rs.Images.Pull.{PulledImage}
use containerd_rs.Cri.ImageService.{
  Disk, Env, pull_image, remove_image, find_image, find_image_by_id,
}
use containerd_rs.Cri.ImageService.Pulls.{Leaves, pull_image-Leaves}
use containerd_rs.Cri.ImageService.Removal.{IsRemoved, remove_image-IsRemoved}
use containerd_rs.Cri.Sessions.{ExecSession, Sessions, new, token, register_exec, take_exec}
use containerd_rs.Cri.Sessions.Tokens.{register_exec-taken}
use containerd_rs.Images.Credentials.{anonymous}
use containerd_rs.Cri.Locks.{Ticket, State, start, guard, Step, called, Reach, at_start, next}
use containerd_rs.Cri.Locks.Exclusion.{guards, Reach-exclusive, Reach-grants}
use containerd_rs.Tests.Stored.{write_record, read_record, read_record-write_record}
use containerd_rs.Tests.Hashes.{toy_sha, toy_finalize, toy_finalize-IsHex, sevens}
use containerd_rs.Tests.Blobs.{all_ok}
use containerd_rs.Tests.Pulls.{
  sevens_record, references-IsCanonical, snapshots_root, full, one_blob,
}

-- One caller waits for its key.
abbrev one_waits : State
one_waits = guard (text "a") start

one_reached : Reach one_waits
one_reached = next at_start (called (text "a"))

Reach-exclusive_example : guards (text "a") one_waits.holds ≤ 1
Reach-exclusive_example = Reach-exclusive one_waits (text "a") one_reached

abbrev ticket : Ticket
ticket = record { key = text "a"; mutex = 0 }

one_listed : one_waits.waits ≡ [] ++ (ticket ∷ [])
unfolding guard lookup insert
one_listed = refl

none_held : guards (text "a") one_waits.holds ≡ 0
unfolding guard guards lookup insert
none_held = refl

Reach-grants_example :
    Step one_waits (record one_waits { waits = []; holds = ticket ∷ one_waits.holds })
unfolding guards
Reach-grants_example = Reach-grants one_waits [] [] ticket one_reached one_listed none_held refl

abbrev pulled_sevens : PulledImage
pulled_sevens = record {
  reference = text "busybox";
  image_id = sevens;
  manifest_digest = none;
  size = 3;
  diff_ids = [];
  chain_ids = [];
  layer_digests = [];
  user = [];
}

abbrev no_records : Store
no_records = record { images = []; containers = []; sandboxes = []; snapshots = []; leases = [] }

abbrev env : Env
env = record {
  PullError = Bool;
  namespace = text "k8s.io";
  to_vec = write_record;
  from_slice = read_record;
  error_text = λ e. text "database";
  resolve_auth = λ r a. a;
  pull = λ r a st. (ok pulled_sevens, st);
  is_auth_error = λ e. e;
  pull_error_text = λ e. text "registry";
  decode_trimmed = λ b. none;
  from_utf8 = λ b. none;
  reads_ok = true;
  puts_ok = true;
  deletes_ok = true;
  unlinks = λ d. all_ok;
  links = 40;
  rmdir_ok = λ p. true;
  snapshots_root = snapshots_root;
}

abbrev empty_disk : Disk
empty_disk = record { metadata = no_records; content = one_blob; snapshots = full }

abbrev pulled_disk : Disk
pulled_disk = (pull_image env (some (text "busybox")) none empty_disk).1

pull_answer :
    pull_image env (some (text "busybox")) none empty_disk ≡ (ok (display sevens), pulled_disk)
unfolding pull_image find_image_by_id get put table lookup write_record
pull_answer = refl

pull_image-Leaves_example :
    (pulled : PulledImage) × ((env.pull
        (text "busybox")
        (env.resolve_auth (text "busybox") anonymous)
        (empty_disk.content, empty_disk.snapshots)).0
      ≡ ok pulled)
    × Leaves env (text "busybox") pulled no_records (display sevens) pulled_disk.metadata
pull_image-Leaves_example =
    pull_image-Leaves env (refl, (refl, (refl, (refl, (refl, (refl, tt)))))) refl
      read_record-write_record (text "busybox") none empty_disk pulled_disk (display sevens)
      pull_answer

-- The same service with one record in the database.
abbrev one_record : Store
one_record = record no_records { images = (key (text "k8s.io") (display sevens), []) ∷ [] }

abbrev reading : Env
reading = record env { from_slice = λ b. ok sevens_record }

abbrev disk : Disk
disk = record empty_disk { metadata = one_record }

found_sevens : find_image reading (display sevens) disk.metadata ≡ ok (some sevens_record)
unfolding find_image get table key lookup str_eq display toy_finalize
found_sevens = refl

removal_answer :
    remove_image reading (some (display sevens)) disk
    ≡ (ok tt, (remove_image reading (some (display sevens)) disk).1)
unfolding remove_image find_image get list delete table set_table key lookup remove list_entries
    str_eq display toy_finalize
removal_answer = refl

remove_image-IsRemoved_example :
    IsRemoved reading sevens_record disk sevens
      ((remove_image reading (some (display sevens)) disk).1)
remove_image-IsRemoved_example =
    remove_image-IsRemoved reading (refl, (refl, (refl, (refl, (refl, (refl, tt)))))) refl
      (λ d. refl) (display sevens) sevens_record disk _ sevens found_sevens references-IsCanonical
      (toy_finalize-IsHex 7) removal_answer

abbrev exec_request : ExecSession
exec_request = record {
  container_id = text "c";
  cmd = text "sh" ∷ [];
  tty = true;
  stdin = true;
  stdout = true;
  stderr = false;
}

abbrev no_sessions : Sessions Bool Bool Bool
no_sessions = new Bool Bool Bool (text "/run/crun") (text "crun")

abbrev registered : Bytes × Sessions Bool Bool Bool
registered = register_exec Bool Bool Bool toy_sha 5 exec_request no_sessions

abbrev no_token : Bytes
no_token = []

other_token : no_token ≢ registered.0
unfolding register_exec token sha256 toy_finalize
other_token h = cc

register_exec-taken_example :
    ((take_exec Bool Bool Bool registered.0 registered.1).0 ≡ some exec_request)
    × ((take_exec Bool Bool Bool registered.0
          (take_exec Bool Bool Bool registered.0 registered.1).1).0
        ≡ none)
    × ((take_exec Bool Bool Bool no_token registered.1).0
        ≡ (take_exec Bool Bool Bool no_token no_sessions).0)
    × ((take_exec Bool Bool Bool no_token (take_exec Bool Bool Bool registered.0 registered.1).1).0
        ≡ (take_exec Bool Bool Bool no_token no_sessions).0)
    × (registered.1.attach ≡ no_sessions.attach)
    × (registered.1.portforward ≡ no_sessions.portforward)
register_exec-taken_example =
    register_exec-taken Bool Bool Bool toy_sha 5 exec_request no_sessions no_token other_token
