-- ===== src/Handler/Upload.antt =====
-- internal/handler/upload_handler.go.
use pluto_feed.Service
use pluto_feed.Prelude.{◌+◌}
use pluto_feed.Apierror.{Error, new, answer}
use pluto_feed.Service.Upload.{max_upload_size}
use pluto_feed.Http.{Handler, Deps, in_files, url}
use pluto_feed.Handler.Params.{when_some}

abbrev pub no_file : Error
no_file = new 400 40015 "请以 multipart/form-data 上传，字段名 file"

module _ (d : Deps) where
  -- The body is cut at the largest upload and 512 bytes more.
  unfoldable pub upload : Handler
  upload ctx =
      when_some no_file (ctx.request.form_file (max_upload_size + 512))
        (λ fh ctx s. answer url (
          in_files
            (Service.Upload.save d.disk d.detect_content_type d.upload_dir ctx.request.chance fh)
            s))
        ctx
