-- ===== src/Python.antt =====
-- The parts of Python that the modelled code uses: exceptions, floats and JSON values.
pub mod Result
pub mod Float
pub mod Value
pub mod Json
pub mod Text
pub mod Words
