-- ===== src/Service/Upload/Stored.antt =====
-- What `Save` of internal/service/upload_service.go has stored when it returns a URL.
use pluto_feed.Prelude.{
  ◌≡◌, ◌⊎◌, codes, inl, inr, refl, sym, ap, ◌∙◌, Bool-cases, false, Option, none, some, ◌++◌, Bytes,
  bytes_eq, bytes_eq_refl, bytes_eq_iff,
}
use pluto_feed.Prelude.Int.{pos, ltb_ℤ}
use pluto_feed.Apierror.{Error, Result, ok, err, Act, then_run, raise}
use pluto_feed.Outcome.{Writes}
use pluto_feed.Disk.{Files, file_at, create_file, append_file, Disk, DiskLaws, Elsewhere}
use pluto_feed.Service.Upload.{
  max_upload_size, allowed_image_types, Source, FileHeader, Chance, copy, copy_part, copy_failed,
  stored_name, stored_path, url_of, store_file, name_file, store_if, sniff, opened, save, join,
}

module _ {S A B : Type 0} where
  -- A chain of calls that succeeds has a first call that did.
  then_run-ok :
      (r : Result A × S) (f : A → Act S B) (b : B) (after : S)
      → then_run r f ≡ (ok b, after)
      → (a : A) × (r.0 ≡ ok a) × (f a r.1 ≡ (ok b, after))
  then_run-ok (ok a, s) f b after e = (a, refl, e)
  then_run-ok (err x, s) f b after e = absurd (cc (ap (λ (r : Result B × S). r.0) e))

module _ {S : Type 0} {act : Act S (Unit {0})} {effect : S → S} (law : Writes act effect) where
  wrote : (s : S) (u : Unit {0}) → (act s).0 ≡ ok u → (act s).1 ≡ effect s
  wrote s u e = elim (law s) [
    | inl done ↦ ap (λ r. r.1) done
    | inr (x, failed) ↦ absurd (cc (e, ap (λ (r : Result (Unit {0}) × S). r.0) failed))
  ]

elsewhere_append :
    (p path content : Bytes) (files : Files)
    → bytes_eq path p ≡ false
    → file_at p (append_file path content files) ≡ file_at p files
unfolding append_file file_at
elsewhere_append p path content files h = rw h refl

elsewhere_create :
    (p path : Bytes) (files : Files)
    → bytes_eq path p ≡ false
    → file_at p (create_file path files) ≡ file_at p files
unfolding create_file file_at
elsewhere_create p path files h = rw h refl

-- A file that is made and written twice.
abbrev written_twice : Bytes → Bytes → Bytes → Files → Files
written_twice path head rest files =
    append_file path rest (append_file path head (create_file path files))

file_at-written :
    (path head rest : Bytes) (files : Files)
    → file_at path (written_twice path head rest files) ≡ some (head ++ rest)
unfolding append_file create_file file_at
file_at-written path head rest files = rw (bytes_eq_refl path) refl

written-Elsewhere :
    (path head rest : Bytes) (files : Files)
    → Elsewhere path files (written_twice path head rest files)
written-Elsewhere path head rest files p h =
    elsewhere_append p path rest (append_file path head (create_file path files)) h
    ∙ elsewhere_append p path head (create_file path files) h
    ∙ elsewhere_create p path files h

module _ {disk : Disk} (laws : DiskLaws disk) (detect : Bytes → Bytes) (root : Bytes) where
  written :
      (path content : Bytes) (files : Files) (u : Unit {0})
      → (disk.write path content files).0 ≡ ok u
      → (disk.write path content files).1 ≡ append_file path content files
  written path content files u e = elim (laws.write_law path content files) [
    | inl done ↦ ap (λ r. r.1) done
    | inr (x, after, failed, _) ↦
        absurd (cc (e, ap (λ (r : Result (Unit {0}) × Files). r.0) failed))
  ]

  copied :
      (path : Bytes) (src : Source) (part : Option Bytes) (files : Files) (u : Unit {0})
      → (copy_part disk detect root path src part files).0 ≡ ok u
      → (copy_part disk detect root path src part files).1 ≡ append_file path src.rest files
  copied path src none files u e = written path src.rest files u e
  copied path src (some part) files u e = absurd (never (disk.write path part files) e)
    where
      never : (r : Result (Unit {0}) × Files) → (then_run r (λ _. raise copy_failed)).0 ≡ ok u → ⊥
      never (ok a, s) h = absurd (cc)
      never (err x, s) h = absurd (cc)

  -- JPEG is stored as .jpg, PNG as .png, and nothing else.
  abbrev pub IsImage : Bytes → Bytes → Type 0
  IsImage content_type ext =
      ((content_type ≡ codes "image/jpeg") × (ext ≡ codes ".jpg"))
      ⊎ ((content_type ≡ codes "image/png") × (ext ≡ codes ".png"))

  allowed-IsImage :
      (content_type ext : Bytes)
      → allowed_image_types content_type ≡ some ext
      → IsImage content_type ext
  unfolding allowed_image_types
  allowed-IsImage content_type ext e =
      elim (Bool-cases (bytes_eq content_type (codes "image/jpeg"))) [
        | inl jpeg ↦
            inl ((bytes_eq_iff content_type (codes "image/jpeg")).0 jpeg, same_ext (rw jpeg at e))
        | inr other ↦ elim (Bool-cases (bytes_eq content_type (codes "image/png"))) [
          | inl png ↦ inr (
            (bytes_eq_iff content_type (codes "image/png")).0 png,
            same_ext (rw (other, png) at e),
          )
          | inr neither ↦ absurd (cc (rw (other, neither) at e))
        ]
      ]
    where
      same_ext : {x y : Bytes} → some x ≡ some y → y ≡ x
      same_ext h = cc

  -- What is so when a URL is returned.
  abbrev pub IsStored : Chance → FileHeader → Files → Bytes → Files → Type 0
  IsStored chance fh files url after =
      (src : Source) × (head : Bytes) × (random : Bytes) × (ext : Bytes) × (ltb_ℤ
          (pos max_upload_size) fh.size
        ≡ false)
      × (fh.open_file ≡ ok src)
      × (src.first_read ≡ ok head)
      × IsImage (detect head) ext
      × (chance.random ≡ ok random)
      × (url ≡ url_of disk detect root chance.month_later (stored_name disk detect root random ext))
      × (file_at
            (stored_path disk detect root chance.month (stored_name disk detect root random ext))
            after
          ≡ some (head ++ src.rest))
      × Elsewhere
          (stored_path disk detect root chance.month (stored_name disk detect root random ext))
          files after

  stored :
      (chance : Chance) (src : Source) (head name : Bytes) (files : Files) (url : Bytes)
      (after : Files)
      → store_file disk detect root chance src head name files ≡ (ok url, after)
      → (url ≡ url_of disk detect root chance.month_later name)
        × (after
            ≡ written_twice (stored_path disk detect root chance.month name) head src.rest files)
  unfolding copy
  stored chance src head name files url after e =
      let dir = join root chance.month in
      let path = stored_path disk detect root chance.month name in
      let s2 = create_file path files in
      let s3 = append_file path head s2 in
      let (u1, made, e1) = then_run-ok (disk.mkdir_all dir files) _ url after e in
      let e2 = rw (wrote (laws.mkdir_law dir) files u1 made) at e1 in
      let (u2, created, e3) = then_run-ok (disk.create path files) _ url after e2 in
      let e4 = rw (wrote (laws.create_law path) files u2 created) at e3 in
      let (u3, headed, e5) = then_run-ok (disk.write path head s2) _ url after e4 in
      let e6 = rw (written path head s2 u3 headed) at e5 in
      let (u4, done, e7) =
        then_run-ok (copy_part disk detect root path src src.broken_after s3) _ url after e6 in
      let last = copied path src src.broken_after s3 u4 done in
      (sym (url_same e7), sym (ap (λ (x : Result Bytes × Files). x.1) e7) ∙ last)
    where
      url_same :
          {a b : Files} {x y : Bytes} → ◌≡◌ {A = Result Bytes × Files} (ok x, a) (ok y, b) → x ≡ y
      url_same h = cc (ap (λ (r : Result Bytes × Files). r.0) h)

  -- Each stage that succeeds had what it needs.
  module _ (chance : Chance) (files : Files) (url : Bytes) (after : Files) where
    failed :
        {P : Type 0} {x : Error} → ◌≡◌ {A = Result Bytes × Files} (err x, files) (ok url, after) → P
    failed h = absurd (cc (ap (λ (r : Result Bytes × Files). r.0) h))

    opened-ok :
        (o : Result Source)
        → opened disk detect root chance o files ≡ (ok url, after)
        → (src : Source) × (o ≡ ok src)
          × (sniff disk detect root chance src src.first_read files ≡ (ok url, after))
    opened-ok (ok src) e = (src, refl, e)
    opened-ok (err x) e = failed e

    sniff-ok :
        (src : Source) (r : Result Bytes)
        → sniff disk detect root chance src r files ≡ (ok url, after)
        → (head : Bytes) × (r ≡ ok head)
          × (store_if disk detect root chance src head (allowed_image_types (detect head)) files
              ≡ (ok url, after))
    sniff-ok src (ok head) e = (head, refl, e)
    sniff-ok src (err x) e = failed e

    store_if-ok :
        (src : Source) (head : Bytes) (o : Option Bytes)
        → store_if disk detect root chance src head o files ≡ (ok url, after)
        → (ext : Bytes) × (o ≡ some ext)
          × (name_file disk detect root chance src head ext chance.random files ≡ (ok url, after))
    store_if-ok src head (some ext) e = (ext, refl, e)
    store_if-ok src head none e = failed e

    name_file-ok :
        (src : Source) (head ext : Bytes) (r : Result Bytes)
        → name_file disk detect root chance src head ext r files ≡ (ok url, after)
        → (random : Bytes) × (r ≡ ok random)
          × (store_file disk detect root chance src head
                (stored_name disk detect root random ext)
                files
              ≡ (ok url, after))
    name_file-ok src head ext (ok random) e = (random, refl, e)
    name_file-ok src head ext (err x) e = failed e

    opened-IsStored :
        (fh : FileHeader)
        → ltb_ℤ (pos max_upload_size) fh.size ≡ false
        → opened disk detect root chance fh.open_file files ≡ (ok url, after)
        → IsStored chance fh files url after
    opened-IsStored fh small e =
        let (src, is_open, e1) = opened-ok fh.open_file e in
        let (head, is_read, e2) = sniff-ok src src.first_read e1 in
        let (ext, allowed, e3) = store_if-ok src head (allowed_image_types (detect head)) e2 in
        let (random, drawn, e4) = name_file-ok src head ext chance.random e3 in
        let name = stored_name disk detect root random ext in
        let path = stored_path disk detect root chance.month name in
        let (url_is, after_is) = stored chance src head name files url after e4 in
        (
          src,
          head,
          random,
          ext,
          small,
          is_open,
          is_read,
          allowed-IsImage (detect head) ext allowed,
          drawn,
          url_is,
          rw after_is (file_at-written path head src.rest files),
          rw after_is (written-Elsewhere path head src.rest files),
        )

  -- When Save returns a URL: the file is of at most 5 MB, the type that was sniffed of its first bytes is
  -- JPEG or PNG, its name is made of the random bytes and the extension of that type, the URL is of that
  -- name in the month of the second reading, the file at that name in the month of the first reading is the
  -- whole upload, and no other file has changed.
  pub save-IsStored :
      (chance : Chance) (fh : FileHeader) (files : Files) (url : Bytes) (after : Files)
      → save disk detect root chance fh files ≡ (ok url, after)
      → IsStored chance fh files url after
  unfolding save
  save-IsStored chance fh files url after e =
      elim (Bool-cases (ltb_ℤ (pos max_upload_size) fh.size)) [
        | inl big ↦ failed chance files url after (rw big at e)
        | inr small ↦ opened-IsStored chance files url after fh small (rw small at e)
      ]
