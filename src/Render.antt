-- ===== src/Render.antt =====
-- app/render.py: elements become the commands of a printer. The elements are the JSON values that a
-- format or a request carries. Output texts are kept as code points; `encode` is left out.
-- Sizes in params (columns, widths) are whole numbers, as app/models.py demands of them; for a param of
-- another shape the model raises a TypeError at once.
pub mod Layout
pub mod Zpl
pub mod Star
pub mod Escpos
pub mod Raster
pub mod Lines
pub mod Commands
pub mod Injection
pub mod Refused
pub mod Support
pub mod Validated
pub mod Noninterference
pub mod Pixels
