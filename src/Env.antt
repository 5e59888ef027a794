-- ===== src/Env.antt =====
-- kern/env.c, by its parts. (env_destroy, which calls the scheduler, is `Env.Destroy`.)
pub mod Table
pub mod Region
pub mod Free
pub mod Run
pub mod Destroy
