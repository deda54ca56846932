-- ===== src/Models/Params.antt =====
-- app/models.py: the params of each type of printer, once pydantic has validated them, and the dict that
-- `model_dump` stores. The timeouts, which are floats, are left out.
pub mod Sizes
use vibe_printer.Prelude.{ℕ, Bool, String, Option, none, some, List, [], ◌∷◌}
use vibe_printer.Json.{Json, null, bool, num, str, arr, Items, nil, cons, Fields, end, field}
use vibe_printer.Models.{
  PrinterType, escpos_network, escpos_usb, cups, ipp_network, virtual, zpl_network, star_network,
  pool,
}

pub data Strategy : Type 0 where
  failover round_robin : Strategy

pub record EscposNetworkParams : Type 0 where
  pub host : String
  pub port : ℕ
  pub profile : Option String
  pub columns : ℕ
  pub paper_width_dots : ℕ
  pub encoding : String
  pub codepage : Option String
  pub cut : Bool

pub record EscposUsbParams : Type 0 where
  pub vendor_id : ℕ
  pub product_id : ℕ
  pub serial : Option String
  pub profile : Option String
  pub columns : ℕ
  pub paper_width_dots : ℕ
  pub encoding : String
  pub cut : Bool

pub record CupsParams : Type 0 where
  pub queue : String
  pub media : Option String
  pub output_bin : String
  pub input_tray : String
  pub device_uri : Option String
  pub make_model : String

pub record IppNetworkParams : Type 0 where
  pub host : String
  pub port : ℕ
  pub uri_path : String
  pub tls : Bool
  pub media : Option String
  pub output_bin : String
  pub input_tray : String
  pub uri : Option String

pub record VirtualParams : Type 0 where
  pub columns : ℕ
  pub paper_width_dots : ℕ

pub record ZplNetworkParams : Type 0 where
  pub host : String
  pub port : ℕ
  pub dpmm : ℕ
  pub label_width_dots : ℕ
  pub label_height_dots : ℕ
  pub raster : Bool

pub record StarNetworkParams : Type 0 where
  pub host : String
  pub port : ℕ
  pub columns : ℕ
  pub encoding : String

pub record PoolParams : Type 0 where
  pub members : List ℕ
  pub strategy : Strategy

-- The union, discriminated by `type`.
pub data PrinterParams : Type 0 where
  of_escpos_network : EscposNetworkParams → PrinterParams
  of_escpos_usb : EscposUsbParams → PrinterParams
  of_cups : CupsParams → PrinterParams
  of_ipp_network : IppNetworkParams → PrinterParams
  of_virtual : VirtualParams → PrinterParams
  of_zpl_network : ZplNetworkParams → PrinterParams
  of_star_network : StarNetworkParams → PrinterParams
  of_pool : PoolParams → PrinterParams

unfoldable pub params_type : PrinterParams → PrinterType
params_type (of_escpos_network m) = escpos_network
params_type (of_escpos_usb m) = escpos_usb
params_type (of_cups m) = cups
params_type (of_ipp_network m) = ipp_network
params_type (of_virtual m) = virtual
params_type (of_zpl_network m) = zpl_network
params_type (of_star_network m) = star_network
params_type (of_pool m) = pool

unfoldable pub opt : Option String → Json
opt none = null
opt (some s) = str s

unfoldable pub numbers : List ℕ → Items
numbers [] = nil
numbers (n ∷ ns) = cons (num n) (numbers ns)

unfoldable pub strategy_text : Strategy → Json
strategy_text failover = str "failover"
strategy_text round_robin = str "round_robin"

-- `model_dump`, without the type, which has a column of its own.
unfoldable pub dump : PrinterParams → Fields
unfolding opt numbers strategy_text
dump (of_escpos_network m) = field "host" (str m.host) (
    field "port" (num m.port) (
      field "profile" (opt m.profile) (
        field "columns" (num m.columns) (
          field "paper_width_dots" (num m.paper_width_dots) (
            field "encoding" (str m.encoding)
              (field "codepage" (opt m.codepage) (field "cut" (bool m.cut) end)))))))
dump (of_escpos_usb m) = field "vendor_id" (num m.vendor_id) (
    field "product_id" (num m.product_id) (
      field "serial" (opt m.serial) (
        field "profile" (opt m.profile) (
          field "columns" (num m.columns) (
            field "paper_width_dots" (num m.paper_width_dots)
              (field "encoding" (str m.encoding) (field "cut" (bool m.cut) end)))))))
dump (of_cups m) = field "queue" (str m.queue) (
    field "media" (opt m.media) (
      field "output_bin" (str m.output_bin) (
        field "input_tray" (str m.input_tray)
          (field "device_uri" (opt m.device_uri) (field "make_model" (str m.make_model) end)))))
dump (of_ipp_network m) = field "host" (str m.host) (
    field "port" (num m.port) (
      field "uri_path" (str m.uri_path) (
        field "tls" (bool m.tls) (
          field "media" (opt m.media) (
            field "output_bin" (str m.output_bin)
              (field "input_tray" (str m.input_tray) (field "uri" (opt m.uri) end)))))))
dump (of_virtual m) =
    field "columns" (num m.columns) (field "paper_width_dots" (num m.paper_width_dots) end)
dump (of_zpl_network m) = field "host" (str m.host) (
    field "port" (num m.port) (
      field "dpmm" (num m.dpmm) (
        field "label_width_dots" (num m.label_width_dots) (
          field "label_height_dots" (num m.label_height_dots)
            (field "raster" (bool m.raster) end)))))
dump (of_star_network m) = field "host" (str m.host) (
    field "port" (num m.port)
      (field "columns" (num m.columns) (field "encoding" (str m.encoding) end)))
dump (of_pool m) =
    field "members" (arr (numbers m.members)) (field "strategy" (strategy_text m.strategy) end)
