-- ===== src/Tests/Temps.antt =====
-- The theorems on temporary files and on the times of files at small file systems.
use rs_io.Base.{
  Bool, List, Option, [], ap, false, if◌then◌else◌, length, ltb, none, refl, some, sym, true, ℕ,
  ◌*◌, ◌∷◌, ◌≡◌,
}
use rs_io.Text.{Text, text_eq}
use rs_io.Time.{
  pos, Stamp, timepoint_to_timespec, duration_to_timespec, quot, rem, timespec_to_timepoint,
  timespec_to_duration, ◌+ℤ◌, times,
}
use rs_io.Stdio.Descriptors.{Calls, OpenFlag, open_file}
use rs_io.Stdio.Cfile.Calls.{FileCalls}
use rs_io.Stdio.Temp.{create, destroy, temp, try_loop, name}
use rs_io.Stdio.Temp.First.{IsOpen, create-first}
use rs_io.Stdio.Temp.Life.{KeepsFiles, Opened, creates, is_exclusive, create-destroy}
use rs_io.FilePath.Resolve.{Environment, resolve}
use rs_io.FilePath.Names.{join, is_relative}
use rs_io.FilePath.Canonical.{
  canonical, trim_trailing, trim_back, merge_slashes, leading, remove_dots, trim_leading, squeeze,
}
use rs_io.FilePath.Files.System.{System, enoent}
use rs_io.FilePath.Files.Stat
use rs_io.FilePath.Files.Stat.{Stat, regular, status}
use rs_io.FilePath.Files.Stat.{access_time, modify_time, set_access_time, set_modify_time}
use rs_io.FilePath.Files.Stat.Times.{SetsTimes, set_times-get}

-- Whether there is a file of a name.
abbrev Names : Type 0
Names = Text → Bool

abbrev with_file : Names → Text → Names
with_file w f g = if text_eq g f then true else w g

-- `open`, by O_CREAT and O_EXCL and by whether the file is there.
abbrev opening : Names → Text → Bool → Bool → Bool → Names × Option ℕ × ℕ
opening w f true true true = (w, none, 17)
opening w f true true false = (with_file w f, some 3, 0)
opening w f true false there = (with_file w f, some 3, 0)
opening w f false excl true = (w, some 3, 0)
opening w f false excl false = (w, none, 2)

abbrev new_file : Names → Text → List OpenFlag → Names × Option ℕ × ℕ
new_file w f flags = opening w f (creates flags) (is_exclusive flags) (w f)

abbrev calls : Calls Names
calls = record {
  open_ = λ w f flags perm. new_file w f flags;
  close = λ w v. (w, 0);
  fsync = λ w fd. (w, 0);
  read = λ w fd n. (w, [], 0);
  lseek = λ w fd o which. (w, pos 0, 0);
  write = λ w fd s. (w, 0, 28);
  dup = λ w fd. (w, none, 9);
  dup2 = λ w fd v. (w, none, 9);
  pipe = λ w. (w, true, none, none, 24);
}

abbrev files : FileCalls Names
files = record {
  fopen = λ w f mode. (w, none, 2);
  tmpfile = λ w. (w, none, 24);
  fdopen = λ w fd. (w, some 7);
  fclose = λ w fp. (w, 0);
  fflush = λ w fp. (w, 0);
  fgetc = λ w fp. (w, none, 0);
  fputc = λ w fp c. (w, 0);
  ungetc = λ w fp c. (w, 0);
  fread = λ w fp n. (w, [], 0);
  fwrite = λ w fp s. (w, 0, 28);
  fseeko = λ w fp o which. (w, 0);
  ftello = λ w fp. (w, pos 0, 0);
  fileno = λ w fp. pos 3;
  is_standard = λ fp. ltb fp 3;
}

abbrev names : System Names
names = record {
  exists = λ s p. s p;
  is_directory = λ s p. true;
  is_symlink = λ s p. false;
  id = λ s p. (1, length p);
  directory = λ s p. [];
  readlink = λ s p. (p, none);
  mkdir = λ s p. (s, some enoent);
  unlink = λ s p. ((λ g. if text_eq g p then false else s g), none);
  rename = λ s p q. (s, none);
  symlink = λ s p q. (s, none);
  open_in = λ s p. ([], none);
  open_out = λ s p. (s, none);
  fwrite = λ s p t. (s, none);
}

opening-Opened :
    (w : Names) (f : Text) (c x b : Bool)
    → w f ≡ b
    → let (w', fd, err) = opening w f c x b in IsOpen fd err × Opened (λ v g. v g) w w' f c x fd
opening-Opened w f true true true h = (tt, λ g. refl)
opening-Opened w f true true false h = (tt, (h, λ g. refl))
opening-Opened w f true false b h = (tt, λ g. refl)
opening-Opened w f false x true h = (tt, λ g. refl)
opening-Opened w f false x false h = (tt, λ g. refl)

keeps : KeepsFiles calls files names (λ v g. v g)
keeps = record {
  open_files = λ w f flags perm. opening-Opened w f (creates flags) (is_exclusive flags) (w f) refl;
  fdopen_same = λ w fd g. refl;
  fclose_same = λ w fp g. refl;
  unlink_removes = λ w f h g. refl;
}

abbrev environment : Environment
environment = record {
  home_variable = [];
  user_variable = [];
  entry = λ u. none;
  current_directory = b'/' ∷ b't' ∷ [];
}

abbrev tmp : Text
tmp = b'/' ∷ b't' ∷ []

abbrev prefix : Text
prefix = b'p' ∷ []

abbrev hex : ℕ → Text
hex n = b'0' ∷ []

abbrev draws : ℕ → ℕ × ℕ
draws i = (i, i)

abbrev where_ : Text
where_ = b'/' ∷ b't' ∷ b'/' ∷ b'p' ∷ b'0' ∷ []

abbrev before : Names
before f = false

abbrev after : Names
after g = if text_eq g where_ then true else false

create-first_example :
    create calls files names hex environment tmp prefix draws before
    ≡ create calls files names hex environment tmp prefix (λ i. (0, i * i)) before
create-first_example =
    create-first calls files names hex environment tmp prefix
      (λ w f. (opening-Opened w f true true (w f) refl).0) draws (λ i. (0, i * i)) before refl

made :
    create calls files names hex environment tmp prefix draws before ≡ (after, temp (some 7) where_)
unfolding create try_loop name resolve join canonical trim_trailing trim_back merge_slashes leading
    remove_dots trim_leading squeeze is_relative open_file
made = refl

create-destroy_example :
    (before where_ ≡ false)
    × ((g : Text) → destroy calls files names after (some 7) where_ g ≡ before g)
create-destroy_example =
    create-destroy calls files names (λ v g. v g) keeps hex environment tmp prefix draws before
      after (some 7) where_ made refl

abbrev epoch : Stamp
epoch = record { sec = pos 0; frac = pos 0 }

abbrev old : Stat
old = record {
  kind = regular;
  st_dev = 1;
  st_ino = 2;
  st_size = 3;
  st_atim = epoch;
  st_mtim = epoch;
  st_ctim = epoch;
}

abbrev one_file : Stat.Calls Stat
one_file = record {
  stat = λ s f. some s;
  lstat = λ s f. some s;
  utimensat = λ s f a m b. (record s { st_atim = a; st_mtim = m }, none);
  chdir = λ s f. (s, none);
  getcwd = λ s n. ([], none);
}

status-one_file : (s : Stat) (f : Text) (b : Bool) → status one_file s f b ≡ some s
status-one_file s f true = refl
status-one_file s f false = refl

one_file-SetsTimes : SetsTimes one_file
one_file-SetsTimes = record {
  sets = λ s s' f a m b h.
      (s', status-one_file s' f b, ap (λ r. r.0.st_atim) (sym h), ap (λ r. r.0.st_mtim) (sym h));
}

-- The access time, or the time of the last change, is 7 ns after the epoch.
abbrev touched : Stat
touched = record old { st_atim = record { sec = pos 0; frac = pos 7 } }

abbrev changed : Stat
changed = record old { st_mtim = record { sec = pos 0; frac = pos 7 } }

set_access_time_succeeds : set_access_time one_file old where_ (pos 7) true ≡ (touched, none)
unfolding set_access_time modify_time timepoint_to_timespec duration_to_timespec quot rem
    timespec_to_timepoint timespec_to_duration ◌+ℤ◌ times
set_access_time_succeeds = refl

set_modify_time_succeeds : set_modify_time one_file old where_ (pos 7) true ≡ (changed, none)
unfolding set_modify_time access_time timepoint_to_timespec duration_to_timespec quot rem
    timespec_to_timepoint timespec_to_duration ◌+ℤ◌ times
set_modify_time_succeeds = refl

set_times-get_example :
    (access_time one_file touched where_ true ≡ pos 7)
    × (modify_time one_file touched where_ true ≡ modify_time one_file old where_ false)
    × (modify_time one_file changed where_ true ≡ pos 7)
    × (access_time one_file changed where_ true ≡ access_time one_file old where_ false)
set_times-get_example =
    set_times-get one_file one_file-SetsTimes old touched changed where_ (pos 7) true
      set_access_time_succeeds set_modify_time_succeeds
