-- ===== src/Directory/Runs.antt =====
-- Any sequence of additions and removals on one directory, against the map.
use operating_system_experie.Base.{ℕ, ◌^◌, ◌<◌, ◌≡◌, refl, Bool, List, [], ◌∷◌, Option, none, some}
use operating_system_experie.Base.Outcome.{Outcome, ok, ◌>>=◌}
use operating_system_experie.Device.{Device}
use operating_system_experie.Superblock.{SuperBlock}
use operating_system_experie.Inode.{Inode}
use operating_system_experie.Directory.{
  DirEntry, Status, done, failed, already_exists, too_large, no_free_blocks, not_found, new,
  dir_add_entry, dir_remove_entry,
}
use operating_system_experie.Directory.View.{Names, update, Models}
use operating_system_experie.Directory.Sound.{IsSound, Keeps, Keeps-refl, Keeps-trans}
use operating_system_experie.Directory.Add.{IsName, Added}
use operating_system_experie.Directory.Remove.{Removes, dir_remove_entry-Removes}
use operating_system_experie.Directory.Refine.{
  Adds, already, put_in, put_in_new_block, at_limit, disk_full, dir_add_entry-Adds,
}

-- A call with its arguments and the time.
pub data Request : Type 0 where
  add : List ℕ → ℕ → Bool → ℕ → Request
  remove : List ℕ → ℕ → Request

-- The arguments that the handlers may pass.
abbrev pub IsRequest : Request → Type 0
IsRequest (add name child is_dir now) = IsName name × (child < 2 ^ 32) × (now < 2 ^ 64)
IsRequest (remove name now) = now < 2 ^ 64

abbrev pub AreRequests : List Request → Type 0
AreRequests [] = Unit
AreRequests (r ∷ rs) = IsRequest r × AreRequests rs

-- What a map of names allows a call to answer, and the map after it. An addition may be refused for
-- want of room.
pub data Allows (f : Names) : Request → Status → Names → Type 0 where
  added :
      {name : List ℕ} {child : ℕ} {is_dir : Bool} {now : ℕ}
      → f name ≡ none
      → Allows f (add name child is_dir now) done (update f name (some (new child name is_dir)))
  present :
      {name : List ℕ} {child : ℕ} {is_dir : Bool} {now : ℕ} (x : DirEntry)
      → f name ≡ some x
      → Allows f (add name child is_dir now) (failed already_exists) f
  no_slot :
      {name : List ℕ} {child : ℕ} {is_dir : Bool} {now : ℕ}
      → f name ≡ none
      → Allows f (add name child is_dir now) (failed too_large) f
  no_block :
      {name : List ℕ} {child : ℕ} {is_dir : Bool} {now : ℕ}
      → f name ≡ none
      → Allows f (add name child is_dir now) (failed no_free_blocks) f
  removed :
      {name : List ℕ} {now : ℕ} (x : DirEntry)
      → f name ≡ some x
      → Allows f (remove name now) done (update f name none)
  missing :
      {name : List ℕ} {now : ℕ} → f name ≡ none → Allows f (remove name now) (failed not_found) f

-- The answers to a sequence of calls, and the map after them.
pub data AllowsAll : Names → List Request → List Status → Names → Type 0 where
  finished : {f : Names} → AllowsAll f [] [] f
  answered :
      {f g h : Names} {r : Request} {rs : List Request} {s : Status} {ss : List Status}
      → Allows f r s g
      → AllowsAll g rs ss h
      → AllowsAll f (r ∷ rs) (s ∷ ss) h

module _ ⦃dev : Device⦄ where
  open dev use {Disk, blocks, block}

  unfoldable pub serve :
      Disk → SuperBlock → Inode → Request → Outcome (Status × Disk × SuperBlock × Inode)
  serve d sb dir (add name child is_dir now) = dir_add_entry d sb dir name child is_dir now
  serve d sb dir (remove name now) = dir_remove_entry d sb dir name now

  unfoldable pub serve_all :
      Disk → SuperBlock → Inode → List Request → Outcome (List Status × Disk × SuperBlock × Inode)
  serve_all d sb dir [] = ok ([], d, sb, dir)
  serve_all d sb dir (r ∷ rs) = do
    (status, d, sb, dir) ← serve d sb dir r
    (statuses, d, sb, dir) ← serve_all d sb dir rs
    ok (status ∷ statuses, d, sb, dir)

  -- The state after one call.
  record Served (d : Disk) (sb : SuperBlock) (dir : Inode) (f : Names) (r : Request) : Type 0 where
    status : Status
    map : Names
    disk : Disk
    after : SuperBlock
    inode : Inode
    returns : serve d sb dir r ≡ ok (status, disk, after, inode)
    allows : Allows f r status map
    sound : IsSound disk after inode
    models : Models disk inode map
    keeps : Keeps d sb dir disk after inode

  -- The state after a sequence of calls.
  pub record ServedAll (d : Disk) (sb : SuperBlock) (dir : Inode) (f : Names) (rs : List Request)
      : Type 0 where
    pub statuses : List Status
    pub map : Names
    pub disk : Disk
    pub after : SuperBlock
    pub inode : Inode
    pub returns : serve_all d sb dir rs ≡ ok (statuses, disk, after, inode)
    pub allows : AllowsAll f rs statuses map
    pub sound : IsSound disk after inode
    pub models : Models disk inode map
    pub keeps : Keeps d sb dir disk after inode

  module _ (d : Disk) (sb : SuperBlock) (dir : Inode) (f : Names) (i : IsSound d sb dir)
      (m : Models d dir f) where
    -- A call that is refused changes nothing.
    refused :
        (r : Request) (s : Status)
        → serve d sb dir r ≡ ok (s, d, sb, dir)
        → Allows f r s f
        → Served d sb dir f r
    refused r s returns allows = record {
      status = s;
      map = f;
      disk = d;
      after = sb;
      inode = dir;
      returns = returns;
      allows = allows;
      sound = i;
      models = m;
      keeps = Keeps-refl d sb dir;
    }

    serve_remove :
        (name : List ℕ) (now : ℕ) (small : now < 2 ^ 64) (v : Option DirEntry)
        → f name ≡ v
        → Removes d sb dir f name now i m small v
        → Served d sb dir f (remove name now)
    unfolding serve
    serve_remove name now small none e r =
        refused (remove name now) (failed not_found) r (missing e)
    serve_remove name now small (some x) e r = record {
      status = done;
      map = update f name none;
      disk = r.disk;
      after = sb;
      inode = _;
      returns = r.returns;
      allows = removed x e;
      sound = r.sound;
      models = r.models;
      keeps = r.keeps;
    }

    serve_new :
        (name : List ℕ) (child : ℕ) (is_dir : Bool) (now : ℕ)
        → f name ≡ none
        → Added d sb dir f name child is_dir now
        → Served d sb dir f (add name child is_dir now)
    unfolding serve
    serve_new name child is_dir now e a = record {
      status = done;
      map = update f name (some (new child name is_dir));
      disk = a.disk;
      after = a.after;
      inode = a.inode;
      returns = a.returns;
      allows = added e;
      sound = a.sound;
      models = a.models;
      keeps = a.keeps;
    }

    serve_add :
        (name : List ℕ) (child : ℕ) (is_dir : Bool) (now : ℕ)
        → Adds d sb dir f name child is_dir now
        → Served d sb dir f (add name child is_dir now)
    unfolding serve
    serve_add name child is_dir now (already x e returns) =
        refused (add name child is_dir now) (failed already_exists) returns (present x e)
    serve_add name child is_dir now (put_in e a same inode) = serve_new name child is_dir now e a
    serve_add name child is_dir now (put_in_new_block e full a more lowest) =
        serve_new name child is_dir now e a
    serve_add name child is_dir now (at_limit e full ten returns) =
        refused (add name child is_dir now) (failed too_large) returns (no_slot e)
    serve_add name child is_dir now (disk_full e full all returns) =
        refused (add name child is_dir now) (failed no_free_blocks) returns (no_block e)

    serve_one : (r : Request) → IsRequest r → Served d sb dir f r
    serve_one (add name child is_dir now) (n, c, t) =
        serve_add name child is_dir now
          (dir_add_entry-Adds d sb dir f name child is_dir now i m n c t)
    serve_one (remove name now) t =
        serve_remove name now t (f name) refl (dir_remove_entry-Removes d sb dir f name now i m t)

  -- On a sound directory that holds the entries of a map, any sequence of additions and removals
  -- runs to its end, with answers and a final map that the map of names allows: the directory then
  -- holds the entries of that map and is sound again. The data blocks that were taken before and are
  -- neither the directory's nor its inode's keep their bytes, every other inode that lies in none of
  -- the directory's blocks is read as before, and no bit is cleared. The names have 1 to 28 bytes in
  -- UTF-8, the numbers of inodes 32 bits, and the times 64.
  pub serve_all-ServedAll :
      (d : Disk) (sb : SuperBlock) (dir : Inode) (f : Names)
      → IsSound d sb dir
      → Models d dir f
      → (rs : List Request) → AreRequests rs
      → ServedAll d sb dir f rs
  unfolding serve_all
  serve_all-ServedAll d sb dir f i m [] h = record {
    statuses = [];
    map = f;
    disk = d;
    after = sb;
    inode = dir;
    returns = refl;
    allows = finished;
    sound = i;
    models = m;
    keeps = Keeps-refl d sb dir;
  }
  serve_all-ServedAll d sb dir f i m (r ∷ rs) (h, hs) =
      let one = serve_one d sb dir f i m r h in
      let rest =
        serve_all-ServedAll one.disk one.after one.inode one.map one.sound one.models rs hs in
      record {
        statuses = one.status ∷ rest.statuses;
        map = rest.map;
        disk = rest.disk;
        after = rest.after;
        inode = rest.inode;
        returns = rw (serve_all, one.returns, ◌>>=◌, rest.returns, ◌>>=◌) refl;
        allows = answered one.allows rest.allows;
        sound = rest.sound;
        models = rest.models;
        keeps =
            Keeps-trans d one.disk rest.disk sb one.after rest.after dir one.inode rest.inode
              one.keeps rest.keeps rest.sound.held.inside;
      }
