-- ===== src/Auth.antt =====
-- extensions/exposition/source/directives/auth: who may call a method. `Types` has the data and
-- the directives, `Role` the matching of roles, `Authorize` what each directive decides, and
-- `Family` the family: authentication, the order of directives, and the answer.
pub mod Types
pub mod Role
pub mod Authorize
pub mod Claims
pub mod Family
pub mod Settle
