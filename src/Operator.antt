-- ===== src/Operator.antt =====
-- cmd/main.go and the `SetupWithManager` methods of internal/controller: the operator's flags, what is
-- configured from them, and the start. `Options` and `Start` model, `Tls` and `Order` prove.
pub mod Options
pub mod Start
pub mod Tls
pub mod Order
