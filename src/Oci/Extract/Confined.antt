-- ===== src/Oci/Extract/Confined.antt =====
-- Unpacking a layer touches nothing outside the root directory, whatever the layer holds.
use kernlet.Common.{
  List, [], ◌∷◌, ◌++◌, Bytes, Bool, true, false, ok, equal, All, All-append, length, ◌≡◌, refl, sym,
  ap, ◌∙◌, eq→equal, equal→eq, within, within-eq-ok,
}
use kernlet.FilePath.{dot, dir, render, render-nil, IsName}
use kernlet.FilePath.Dir.{dir-names}
use kernlet.Sys.{
  Call, Os, root_mkdir_all, root_remove_all, root_create, copy_to_file, close_file, root_symlink,
  root_link, root_lchown, root_chmod,
}
use kernlet.Sys.Only.{Only, Extends-Only, Makes, makes_rules, Makes-bind-lift, Makes-bind}
use kernlet.Oci.Image.{Header, Archive, eof, broken, entry}
use kernlet.Oci.ArchivePath.{
  IsInside, IsContained, clean_archive_path, clean_archive_path-IsInside, validate_symlink,
  validate_symlink_iff,
}
use kernlet.Oci.Extract.{
  apply_metadata, make_parent, create_directory, create_regular, create_symlink, make_link,
  create_hard_link, create_by_type, create_archive_entry, extract_entry, extract_archive,
}

-- A path of plain names strictly below the root.
pub record IsBelow (path : Bytes) : Type 0 where
  pub parts : List Bytes
  pub last : Bytes
  pub spelled : path ≡ render false (parts ++ last ∷ [])
  pub named : All IsName parts
  pub last_named : IsName last

-- A symbolic link below the root, whose target never leaves the root on its way, name by name, from the
-- directory that the path of the link spells. The walk takes no name for a link.
pub record IsSafeLink (target name : Bytes) : Type 0 where
  pub below : IsBelow name
  pub contained : IsContained (length below.parts) target

-- The calls on an `os.Root` that stay below it, and those on a file that was created there. Only the
-- owner and the mode of the root itself may change.
abbrev pub Confined : Call → Type 0
Confined (root_mkdir_all path mode) = IsBelow path
Confined (root_remove_all path) = IsBelow path
Confined (root_create path mode) = IsBelow path
Confined (root_symlink target name) = IsSafeLink target name
Confined (root_link target name) = IsBelow target × IsBelow name
Confined (root_lchown path uid gid) = IsInside path
Confined (root_chmod path mode) = IsInside path
Confined (copy_to_file file content) = Unit
Confined (close_file file) = Unit
Confined _ = ⊥

-- A nonempty list of names is a list and its last member.
record Snoc (list : List Bytes) : Type 0 where
  front : List Bytes
  last : Bytes
  whole : list ≡ front ++ last ∷ []
  named : All IsName front
  last_named : IsName last

snoc : (part : Bytes) (parts : List Bytes) → All IsName (part ∷ parts) → Snoc (part ∷ parts)
snoc part [] h = record { front = []; last = part; whole = refl; named = tt; last_named = h.0 }
snoc part (next ∷ parts) h =
    let rest = snoc next parts h.1 in
    record {
      front = part ∷ rest.front;
      last = rest.last;
      whole = ap (λ (l : List Bytes). part ∷ l) rest.whole;
      named = (h.0, rest.named);
      last_named = rest.last_named;
    }

IsBelow-parts :
    (path : Bytes) (parts : List Bytes)
    → path ≡ render false parts
    → All IsName parts
    → equal path dot ≡ false
    → IsBelow path
IsBelow-parts path [] spelled named h =
    let e : path ≡ dot = spelled ∙ render-nil in cc (h, eq→equal path dot e)
IsBelow-parts path (part ∷ parts) spelled named h =
    let s = snoc part parts named in
    record {
      parts = s.front;
      last = s.last;
      spelled = spelled ∙ ap (render false) s.whole;
      named = s.named;
      last_named = s.last_named;
    }

IsInside-IsBelow : (path : Bytes) → IsInside path → equal path dot ≡ false → IsBelow path
IsInside-IsBelow path h n = IsBelow-parts path h.parts h.spelled h.named n

IsBelow-IsInside : (path : Bytes) → IsBelow path → IsInside path
IsBelow-IsInside path h = record {
  parts = h.parts ++ h.last ∷ [];
  spelled = h.spelled;
  named = All-append IsName h.parts (h.last ∷ []) h.named (h.last_named, tt);
}

dir-IsInside : (path : Bytes) → IsBelow path → IsInside (dir path)
dir-IsInside path h = record {
  parts = h.parts;
  spelled = ap dir h.spelled ∙ dir-names h.parts h.last h.named h.last_named;
  named = h.named;
}

dot-IsInside : (path : Bytes) → equal path dot ≡ true → IsInside path
dot-IsInside path h = record {
  parts = [];
  spelled = equal→eq path dot h ∙ sym render-nil;
  named = tt;
}

IsBelow-IsSafeLink :
    (target name : Bytes)
    → IsBelow name
    → validate_symlink name target ≡ ok tt
    → IsSafeLink target name
IsBelow-IsSafeLink target name h e = record {
  below = h;
  contained =
      (validate_symlink_iff h.parts h.last target h.named h.last_named).0
        (ap (λ (n : Bytes). validate_symlink n target) (sym h.spelled) ∙ e);
}

module _ (os : Os) where
  apply_metadata-Confined :
      (name : Bytes) (header : Header) (symbolic : Bool)
      → IsInside name
      → Makes Confined (apply_metadata os name header symbolic)
  unfolding apply_metadata
  apply_metadata-Confined name header symbolic h = search makes_rules depth 8

  make_parent-Confined : (parent : Bytes) → IsInside parent → Makes Confined (make_parent os parent)
  unfolding make_parent
  make_parent-Confined parent h = search (makes_rules, IsInside-IsBelow) depth 8

  create_directory-Confined :
      (header : Header) (name : Bytes)
      → IsBelow name
      → Makes Confined (create_directory os header name)
  unfolding create_directory
  create_directory-Confined header name h =
      search (makes_rules, apply_metadata-Confined, IsBelow-IsInside) depth 8

  create_regular-Confined :
      (header : Header) (content name : Bytes)
      → IsBelow name
      → Makes Confined (create_regular os header content name)
  unfolding create_regular
  create_regular-Confined header content name h =
      search (makes_rules, apply_metadata-Confined, IsBelow-IsInside) depth 20

  create_symlink-Confined :
      (header : Header) (name : Bytes)
      → IsBelow name
      → Makes Confined (create_symlink os header name)
  unfolding create_symlink
  create_symlink-Confined header name h =
      Makes-bind-lift (validate_symlink name header.linkname) _ λ _ valid.
        search (makes_rules, apply_metadata-Confined, IsBelow-IsInside, IsBelow-IsSafeLink) depth 20

  make_link-Confined :
      (header : Header) (target name : Bytes)
      → IsInside target
      → IsBelow name
      → Makes Confined (make_link os header target name)
  unfolding make_link
  make_link-Confined header target name t h =
      search (makes_rules, apply_metadata-Confined, IsBelow-IsInside, IsInside-IsBelow) depth 20

  create_hard_link-Confined :
      (header : Header) (name : Bytes)
      → IsBelow name
      → Makes Confined (create_hard_link os header name)
  unfolding create_hard_link
  create_hard_link-Confined header name h =
      Makes-bind-lift (within "invalid hard-link target" (clean_archive_path header.linkname)) _
        λ target e.
          make_link-Confined header target name
            (clean_archive_path-IsInside header.linkname target
              (within-eq-ok _ (clean_archive_path header.linkname) target e))
            h

  create_by_type-Confined :
      (header : Header) (content name : Bytes)
      → IsBelow name
      → Makes Confined (create_by_type os header content name)
  unfolding create_by_type
  create_by_type-Confined header content name h =
      search
        (
          makes_rules, create_directory-Confined, create_regular-Confined, create_symlink-Confined,
          create_hard_link-Confined,
        )
        depth 8

  create_archive_entry-Confined :
      (header : Header) (content name : Bytes)
      → IsBelow name
      → Makes Confined (create_archive_entry os header content name)
  unfolding create_archive_entry
  create_archive_entry-Confined header content name h =
      search (makes_rules, make_parent-Confined, create_by_type-Confined, dir-IsInside) depth 8

  extract_entry-Confined :
      (header : Header) (content name : Bytes)
      → IsInside name
      → Makes Confined (extract_entry os header content name)
  unfolding extract_entry
  extract_entry-Confined header content name h =
      search (makes_rules, apply_metadata-Confined, create_archive_entry-Confined, IsInside-IsBelow)
        depth 12

  pub extract_archive-Makes : (archive : Archive) → Makes Confined (extract_archive os archive)
  unfolding extract_archive
  extract_archive-Makes eof = search makes_rules
  extract_archive-Makes (broken e) = search makes_rules
  extract_archive-Makes (entry header content archive) =
      Makes-bind-lift (clean_archive_path header.name) _ λ name e.
        Makes-bind (extract_entry os header content name) _
          (extract_entry-Confined header content name
            (clean_archive_path-IsInside header.name name e))
          (λ _. extract_archive-Makes archive)

-- Whatever the layer holds, and whatever the system answers: what unpacking removes, creates and links
-- has a path of plain names strictly below the root directory, and what it changes the owner or the
-- mode of has such a path or is the root. The target of each symbolic link that it creates, taken
-- element by element from the directory that the path of the link spells, never leaves the root; links
-- that were created before are not followed in this.
pub extract_archive-Confined :
    (os : Os) (archive : Archive) → Only Confined (extract_archive os archive []).1
extract_archive-Confined os archive = Extends-Only ((extract_archive-Makes os archive).at [])
