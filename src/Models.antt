-- ===== src/Models.antt =====
-- app/models.py and app/backends/base.py: printer types, job statuses, capabilities, payloads.
pub mod Params
use vibe_printer.Prelude.{ℕ, Bool, false, String, Option, none, List, []}
use vibe_printer.Prelude.Texts.{Text}
use vibe_printer.Prelude.Int.{ℤ}
use vibe_printer.Json.{Json}

pub data PrinterType : Type 0 where
  escpos_network escpos_usb cups ipp_network virtual zpl_network star_network pool : PrinterType

pub data JobStatus : Type 0 where
  queued rendering printing done failed dead canceled uncertain : JobStatus

pub data Delivery : Type 0 where
  sent completed : Delivery

pub data ContentType : Type 0 where
  pdf postscript pcl : ContentType

pub record Capabilities : Type 0 where
  pub cut : Bool
  pub qr : Bool
  pub barcode : List String
  pub raster : Bool
  pub columns : Option ℕ
  pub paper_width_dots : Option ℕ
  pub pulse : Bool
  pub pdf : Bool
  pub document_formats : List ContentType

abbrev pub no_capabilities : Capabilities
no_capabilities = record {
  cut = false;
  qr = false;
  barcode = [];
  raster = false;
  columns = none;
  paper_width_dots = none;
  pulse = false;
  pdf = false;
  document_formats = [];
}

-- The dict that `payload_json` encodes: each key that some caller of `enqueue` writes.
pub record Payload : Type 0 where
  pub raw : Option String
  pub file_content : Option String
  pub content_type : Option ContentType
  pub media : Option String
  pub payload_data : Json
  pub copies : ℕ
  pub overlay : Option ℕ
  pub template : Option ℕ
  pub document : Option Json
  pub format : Option ℕ

pub record PrintRequest : Type 0 where
  pub printer : ℕ
  pub document : Option Json
  pub format : Option ℕ
  pub template : Option ℕ
  pub overlay : Option ℕ
  pub request_data : Json
  pub copies : ℕ
  pub priority : ℤ
  pub scheduled_at : Option Text

pub record FilePrintRequest : Type 0 where
  pub printer : ℕ
  pub content : String
  pub content_type : ContentType
  pub copies : ℕ
  pub media : Option String
  pub priority : ℤ
  pub scheduled_at : Option Text

pub record RawPrintRequest : Type 0 where
  pub printer : ℕ
  pub raw_data : String

-- `PrintPayload.kind`
pub data Kind : Type 0 where
  escpos pdf zpl star postscript pcl : Kind
