-- ===== src/Knowledge/DomainRoutes/Imports/Uploads.antt =====
-- What becomes of an uploaded file.
use ob2_turbo_quant.Common.{
  true, ◌≡◌, refl, ◌⊎◌, inl, inr, ◌++◌, codes, false, not, Option, some, none, Bool, leb, List, [],
  ◌∷◌, Text, All, text_eq, text_eq_iff, keep,
}
use ob2_turbo_quant.Users.{AuthContext, write}
use ob2_turbo_quant.Import.Jobs.{JobStore}
use ob2_turbo_quant.Import.Runner.{IngestError, Dispatched}
use ob2_turbo_quant.Knowledge.{Request}
use ob2_turbo_quant.Knowledge.Run.{Outcome, halt, go, Run, ◌>>=◌, require, require_some, Ends}
use ob2_turbo_quant.Knowledge.DomainRoutes.{Answer, error, require_perm}
use ob2_turbo_quant.Knowledge.DomainRoutes.Imports.{
  Placing, place_upload, written, partly, nowhere, extension, ImportState, ImportWorld, UploadForm,
  UploadedFile, check_upload, upload_checked, settle_upload, upload, upload_path,
}

-- No upload lies at the path.
abbrev pub IsFree : Text → List Text → Type 0
IsFree path files = All (λ p. text_eq p path ≡ false) files

-- Where an upload belongs: /data/imports/<domain>/<id>.<extension>.
abbrev pub own_path : ImportWorld → Text → UploadedFile → Text
own_path w domain file =
    codes "/data/imports/"
    ++ (domain ++ (codes "/" ++ (w.file_draw ++ (codes "." ++ extension w.to_lower file.name))))

-- The files after an answer, by those of before. With the upload accepted, its file has come in; with an
-- error they are as before, or the file of the form has come in, whole or in part, since its writing
-- threw midway or its removal failed.
abbrev pub FilesAfter :
    Placing
    → Bool
    → (UploadedFile → Text)
    → Option UploadForm
    → Outcome Answer Answer
    → List Text
    → List Text
    → Type 0
FilesAfter placing is_removed own form (go a) before after =
    (placing ≡ written)
    × ((f : UploadForm) × (file : UploadedFile) × (form ≡ some f)
        × (f.file ≡ some file)
        × (after ≡ own file ∷ before))
FilesAfter placing is_removed own form (halt a) before after =
    (after ≡ before)
    ⊎ ((f : UploadForm) × (file : UploadedFile) × (form ≡ some f)
        × (f.file ≡ some file)
        × ((placing ≡ partly) ⊎ (is_removed ≡ false))
        × (after ≡ own file ∷ before))

keep_others :
    (path : Text) (files : List Text)
    → IsFree path files
    → keep (λ p. not (text_eq p path)) files ≡ files
unfolding keep
keep_others path [] h = refl
keep_others path (p ∷ ps) (free, h) = rw (free, keep_others path ps h) refl

-- The form and its file, where the checks of the form have passed.
abbrev IsGiven : Option UploadForm → UploadForm × UploadedFile → Type 0
IsGiven form (f, file) = (form ≡ some f) × (f.file ≡ some file)

settle_upload-FilesAfter :
    (own : UploadedFile → Text) (form : Option UploadForm) (f : UploadForm) (file : UploadedFile)
    (files : List Text) (is_removed : Bool) (run : Run IngestError Dispatched) (jobs : JobStore)
    → IsGiven form (f, file)
    → IsFree (own file) files
    → let r = settle_upload is_removed (own file) (own file ∷ files) (run, jobs) in
      FilesAfter written is_removed own form r.0.0 files r.1.files
unfolding keep
settle_upload-FilesAfter own form f file files true (halt e, made) jobs (here, given) h =
    inl (rw ((text_eq_iff (own file) (own file)).1 refl) (keep_others (own file) files h))
settle_upload-FilesAfter own form f file files false (halt e, made) jobs (here, given) h =
    inr (f, file, here, given, inr refl, refl)
settle_upload-FilesAfter own form f file files is_removed (go d, made) jobs (here, given) h =
    (refl, (f, file, here, given, refl))

place_upload-FilesAfter :
    (own : UploadedFile → Text) (form : Option UploadForm) (f : UploadForm) (file : UploadedFile)
    (placing : Placing) (is_removed : Bool) (run : Run IngestError Dispatched) (jobs : JobStore)
    (s : ImportState)
    → IsGiven form (f, file)
    → IsFree (own file) s.files
    → let r = place_upload placing is_removed (own file) (run, jobs) s in
      FilesAfter placing is_removed own form r.0.0 s.files r.1.files
place_upload-FilesAfter own form f file nowhere is_removed run jobs s given h = inl refl
place_upload-FilesAfter own form f file partly is_removed run jobs s (here, given) h =
    inr (f, file, here, given, inl refl, refl)
place_upload-FilesAfter own form f file written is_removed run jobs s given h =
    settle_upload-FilesAfter own form f file s.files is_removed run jobs given h

upload_checked-FilesAfter :
    (w : ImportWorld) (auth : Option AuthContext) (domain : Text) (form : Option UploadForm)
    (checked : Run Answer (UploadForm × UploadedFile)) (s : ImportState)
    → ((ext : Text) → IsFree (upload_path domain w.file_draw ext) s.files)
    → Ends (IsGiven form) checked
    → let r = upload_checked w auth domain checked s in
      FilesAfter w.placing w.is_removed (own_path w domain) form r.0.0 s.files r.1.files
unfolding upload_checked
upload_checked-FilesAfter w auth domain form (halt a, made) s h given = inl refl
upload_checked-FilesAfter w auth domain form (go (f, file), made) s h (here, given) =
    place_upload-FilesAfter (own_path w domain) form f file w.placing w.is_removed _ _ s
      (here, given) (h _)

Ends-made :
    {B : Type 0} (Q : B → Type 0) (made : List Request) (run : Run Answer B)
    → Ends Q run
    → Ends Q (run.0, made ++ run.1)
Ends-made Q made (halt r, more) h = h
Ends-made Q made (go x, more) h = h

next-Ends :
    {A B : Type 0} (Q : B → Type 0) (run : Run Answer A) (f : A → Run Answer B)
    → ((x : A) → Ends Q (f x))
    → Ends Q (run >>= f)
next-Ends Q (halt r, made) f h = tt
next-Ends Q (go x, made) f h = Ends-made Q made (f x) (h x)

some-Ends :
    {A B : Type 0} (Q : B → Type 0) (o : Option A) (a : Answer) (f : A → Run Answer B)
    → ((x : A) → o ≡ some x → Ends Q (f x))
    → Ends Q (require_some o a >>= f)
some-Ends Q none a f h = tt
some-Ends Q (some x) a f h = Ends-made Q [] (f x) (h x refl)

-- The upload's checks end with what the form gives.
check_upload-IsGiven :
    (w : ImportWorld) (auth : Option AuthContext) (domain : Text) (form : Option UploadForm)
    → Ends (IsGiven form) (check_upload w auth domain form)
unfolding check_upload
check_upload-IsGiven w auth domain form =
    next-Ends (IsGiven form) (require_perm auth domain write) _ (λ may.
      some-Ends (IsGiven form) form (error 400) _ (λ f here.
        some-Ends (IsGiven form) f.file (error 400) _ (λ file given.
          next-Ends (IsGiven form) (require (leb file.size w.ingest_env.max_bytes) (error 413)) _
            (λ small. (here, given)))))

-- With a fresh id for the file, an upload that is accepted leaves its own file, under the id at the path
-- that is meant for it, and takes none away. One that is answered with an error takes none away either,
-- and leaves none behind but, at that path, a file that could be written only in part or whose removal
-- failed.
pub upload-FilesAfter :
    (w : ImportWorld) (auth : Option AuthContext) (domain : Text) (form : Option UploadForm)
    (s : ImportState)
    → ((ext : Text) → IsFree (upload_path domain w.file_draw ext) s.files)
    → let r = upload w auth domain form s in
      FilesAfter w.placing w.is_removed (own_path w domain) form r.0.0 s.files r.1.files
unfolding upload
upload-FilesAfter w auth domain form s h =
    upload_checked-FilesAfter w auth domain form (check_upload w auth domain form) s h
      (check_upload-IsGiven w auth domain form)
