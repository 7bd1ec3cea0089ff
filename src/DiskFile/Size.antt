-- ===== src/DiskFile/Size.antt =====
-- Storing a file keeps the size of the image.
use xroar_dev.Base.{ℕ, ◌≡◌, sym, ap, ◌∙◌, Bool, List, length, get_or}
use xroar_dev.Error.{ok}
use xroar_dev.Image.{Image, IsBytes, splice}
use xroar_dev.View.{IsView}
use xroar_dev.DiskFile.{last_sector_bytes, lay, write_file}
use xroar_dev.DiskFile.Stored.{stored_slots}
use xroar_dev.DiskFile.Outcome.{Run-Outcome}
use xroar_dev.DiskFile.Write.{entry_of, write_file-Run}
use xroar_dev.DiskFile.Entry.{length-entry}
use xroar_dev.DiskFile.Store.{store}
use xroar_dev.Names.Fields.{length-encode_name}

pub size-write_file :
    (d : Image) (name payload : List ℕ) (ftype ascii_flag : ℕ) (rewrite : Bool) (base tracks : ℕ)
    {e : Image}
    → IsView d base tracks
    → IsBytes d
    → write_file d name payload ftype ascii_flag rewrite base tracks ≡ ok e
    → e.size ≡ d.size
size-write_file d name payload ftype ascii_flag rewrite base tracks {e} view bytes h =
    let r = write_file-Run d name payload ftype ascii_flag rewrite base tracks h in
    let out = Run-Outcome d name payload ftype ascii_flag rewrite base tracks view bytes r in
    let named = length-encode_name name r.named in
    let lss = last_sector_bytes (length payload) in
    let first = get_or r.grans 0 0 in
    let entry = entry_of r.field ftype ascii_flag first lss in
    let len = length-entry r.field ftype ascii_flag first lss named in
    let is : e ≡ store r.linked base r.grans payload r.off entry =
      r.result ∙ ap (λ n. splice (lay r.linked base r.grans payload) r.off n entry) (sym len) in
    ap (λ x. x.size) is
    ∙ (stored_slots d r.linked base tracks r.off r.grans payload r.field entry view out len).0
